-- ===== src/Gateway/Ownership.antt =====
-- The connections of the proxy (gateway/handlers/ProxyHandler.cpp) under every interleaving of
-- requests: each step is one critical section of a pool, or what a request does with its own socket.
use mathlib.Core.Path.{subst}
use liquid_pet_project.Prelude.{
  ℕ, ◌+◌, ◌≤◌, ◌≡◌, refl, ap, inl, inr, arith, Bool, ◌&&◌, some, List, [], ◌∷◌, ◌++◌, String,
  if◌then◌else◌, Bool-cases, eqb, eq_string,
}
use liquid_pet_project.Prelude.Dict.{Dict, lookup, insert}
use liquid_pet_project.Models.Host.{UpstreamConfiguration}
use liquid_pet_project.Http.{BeastResponse}
use liquid_pet_project.Gateway.{
  Pools, new_pools, idle, acquire_from, acquire_pooled_socket, release_socket_if_reusable,
}

-- How often a socket is in a list, and in the pools.
abbrev pub count : ℕ → List ℕ → ℕ
count socket [] = 0
count socket (x ∷ xs) = (if eqb x socket then 1 else 0) + count socket xs

abbrev pub idle_count : ℕ → Pools → ℕ
idle_count socket [] = 0
idle_count socket ((prefix, sockets) ∷ rest) = count socket sockets + idle_count socket rest

-- The pools, and the sockets that requests hold.
pub record Held : Type 0 where
  pub pools : Pools
  pub busy : List ℕ

pub data Step : Held → Held → Type 0 where
  acquires :
      (h : Held) (prefix : String) (socket : ℕ) (pools : Pools)
      → acquire_pooled_socket prefix h.pools ≡ (some socket, pools)
      → Step h (record { pools = pools; busy = socket ∷ h.busy })
  -- a socket that is made is none of those that exist
  connects :
      (h : Held) (socket : ℕ)
      → idle_count socket h.pools ≡ 0
      → count socket h.busy ≡ 0
      → Step h (record h { busy = socket ∷ h.busy })
  returns :
      (h : Held) (prefix : String) (socket : ℕ) (is_open : Bool) (r : BeastResponse)
      (before after : List ℕ)
      → h.busy ≡ before ++ socket ∷ after
      → Step h (record {
        pools = release_socket_if_reusable prefix socket is_open r h.pools;
        busy = before ++ after;
      })
  -- after a failed exchange the socket is destroyed
  loses :
      (h : Held) (socket : ℕ) (before after : List ℕ)
      → h.busy ≡ before ++ socket ∷ after
      → Step h (record h { busy = before ++ after })

pub data Reach (start : Held) : Held → Type 0 where
  here : Reach start start
  next : {h g : Held} → Reach start h → Step h g → Reach start g

abbrev pub Once : Held → Type 0
Once h = (socket : ℕ) → idle_count socket h.pools + count socket h.busy ≤ 1

module _ (socket : ℕ) where
  count-append : (xs ys : List ℕ) → count socket (xs ++ ys) ≡ count socket xs + count socket ys
  count-append [] ys = omega arith
  count-append (x ∷ xs) ys = omega (arith, count-append xs ys)

  idle_count-new :
      (services : Dict String UpstreamConfiguration) → idle_count socket (new_pools services) ≡ 0
  unfolding new_pools
  idle_count-new [] = refl
  idle_count-new ((prefix, config) ∷ rest) = omega (arith, idle_count-new rest)

  -- A pool that is overwritten: its old sockets go and the new ones come.
  idle_count-insert :
      (prefix : String) (sockets : List ℕ) (pools : Pools)
      → idle_count socket (insert prefix sockets pools) + count socket (idle prefix pools)
        ≡ idle_count socket pools + count socket sockets
  unfolding insert idle lookup
  idle_count-insert prefix sockets [] = omega arith
  idle_count-insert prefix sockets ((j, held) ∷ rest) =
      ground (arith, idle_count-insert prefix sockets rest)

  acquire_from-count :
      (prefix : String) (taken : ℕ) (sockets : List ℕ) (pools pools' : Pools)
      → sockets ≡ idle prefix pools
      → acquire_from prefix sockets pools ≡ (some taken, pools')
      → idle_count socket pools' + count socket (taken ∷ []) ≡ idle_count socket pools
  unfolding acquire_from
  acquire_from-count prefix taken [] pools pools' at h = cc h
  acquire_from-count prefix taken (s ∷ rest) pools pools' at h =
      let top : s ≡ taken = ground arith in
      let left : insert prefix rest pools ≡ pools' = ground arith in
      let same = ap (count socket) at in
      let counted = idle_count-insert prefix rest pools in
      let e : idle_count socket (insert prefix rest pools) + count socket (s ∷ [])
          ≡ idle_count socket pools =
        omega (arith, same, counted) in
      subst (λ t. idle_count socket pools' + count socket (t ∷ []) ≡ idle_count socket pools) top
        (subst (λ q. idle_count socket q + count socket (s ∷ []) ≡ idle_count socket pools) left e)

  release_count :
      (prefix : String) (freed : ℕ) (is_open : Bool) (r : BeastResponse) (pools : Pools)
      → idle_count socket (release_socket_if_reusable prefix freed is_open r pools)
        ≤ idle_count socket pools + count socket (freed ∷ [])
  unfolding release_socket_if_reusable
  release_count prefix freed is_open r pools = elim (Bool-cases (r.keep_alive && is_open)) [
    | inl both ↦ rw both (omega (arith, idle_count-insert prefix (freed ∷ idle prefix pools) pools))
    | inr not_both ↦ rw not_both (omega arith)
  ]

  -- A request that holds a socket, and one that no longer does.
  busy_count :
      (freed : ℕ) (before after busy : List ℕ)
      → busy ≡ before ++ freed ∷ after
      → count socket (before ++ after) + count socket (freed ∷ []) ≡ count socket busy
  busy_count freed before after busy e =
      omega
        (arith, ap (count socket) e, count-append before after, count-append before (freed ∷ after))

  made_once :
      (made : ℕ) (h : Held)
      → idle_count made h.pools ≡ 0
      → count made h.busy ≡ 0
      → idle_count socket h.pools + count socket h.busy ≤ 1
      → idle_count socket h.pools + count socket (made ∷ h.busy) ≤ 1
  made_once made h not_idle not_busy once = elim (Bool-cases (eqb made socket)) [
    | inl same ↦
        let q : made ≡ socket = ground arith in
        subst (λ x. idle_count x h.pools + count x (made ∷ h.busy) ≤ 1) q (ground arith)
    | inr other ↦ rw other (omega arith)
  ]

Step-Once : {h g : Held} → Step h g → Once h → Once g
unfolding acquire_pooled_socket
Step-Once (acquires h prefix taken pools e) once socket = omega (
  arith,
  once socket,
  acquire_from-count socket prefix taken (idle prefix h.pools) h.pools pools refl e,
)
Step-Once (connects h made not_idle not_busy) once socket =
    made_once socket made h not_idle not_busy (once socket)
Step-Once (returns h prefix freed is_open r before after e) once socket = omega (
  arith,
  once socket,
  release_count socket prefix freed is_open r h.pools,
  busy_count socket freed before after h.busy e,
)
Step-Once (loses h freed before after e) once socket =
    omega (arith, once socket, busy_count socket freed before after h.busy e)

Reach-Once : {start h : Held} → Once start → Reach start h → Once h
Reach-Once once here = once
Reach-Once once (next r s) = Step-Once s (Reach-Once once r)

-- Under every interleaving of requests no connection is idle in two places, idle while a request
-- uses it, or used by two requests at once, if a connection that is made is none of those that exist.
pub sockets_owned_once :
    (services : Dict String UpstreamConfiguration) {h : Held}
    → Reach (record { pools = new_pools services; busy = [] }) h
    → (socket : ℕ) → idle_count socket h.pools + count socket h.busy ≤ 1
sockets_owned_once services r =
    Reach-Once (λ socket. omega (arith, idle_count-new socket services)) r
