-- ===== src/Messaging/PartitionRegistry/Confirmed.antt =====
-- When every position that a registry offers is confirmed, it offers none
-- (shared/messaging/PartitionRegistry.h).
use mathlib.Core.Path.{subst}
use liquid_pet_project.Prelude.{
  ◌≡◌, ◌⊎◌, ◌∙◌, inl, inr, refl, sym, ap, false, none, some, List, [], ◌∷◌, map, arith, All,
  All-append, Bool-cases, Option-cases, ◌==◌, eq_nat, eq_string, beq→eq, beq_self,
}
use liquid_pet_project.Prelude.Dict.{Dict, lookup, lookup-insert, Distinct}
use liquid_pet_project.Messaging.OffsetTracker
use liquid_pet_project.Messaging.OffsetTracker.Confirmed.{candidate-confirmed}
use liquid_pet_project.Messaging.PartitionRegistry.{
  PartitionKey, eq_key, CommitPosition, PartitionState, PartitionRegistry, position_of,
  candidates_of, commit_candidates, confirm_commit, put_tracker,
}
use liquid_pet_project.Messaging.PartitionRegistry.Cases.{confirm_current}
use liquid_pet_project.Messaging.PartitionRegistry.Invariant.{
  IsValid, run, step, confirms, step-IsValid, run-IsValid, tracker_at,
}
use liquid_pet_project.Messaging.PartitionRegistry.Positions.{
  Offered, IsReady, commit_candidates_exact,
}

abbrev pub Elsewhere : PartitionKey → CommitPosition → Type 0
Elsewhere k p = (p.partition == k) ≡ false

-- What a state offers is of its own partition, so it is elsewhere for another one.
position_of-Elsewhere :
    (k j : PartitionKey) (s : PartitionState)
    → (j == k) ≡ false
    → All (Elsewhere k) (position_of j s)
unfolding position_of
position_of-Elsewhere k j s other = elim (Option-cases (OffsetTracker.commit_candidate s.tracker)) [
  | inl nothing ↦ rw (nothing, position_of) tt
  | inr (o, offered) ↦ rw (offered, position_of) (other, tt)
]

pub candidates_of-Elsewhere :
    (k : PartitionKey) (m : Dict PartitionKey PartitionState)
    → lookup k m ≡ none
    → All (Elsewhere k) (candidates_of m)
unfolding candidates_of lookup
candidates_of-Elsewhere k [] h = tt
candidates_of-Elsewhere k ((j, s) ∷ m) h = elim (Bool-cases (j == k)) [
  | inl same ↦ absurd (cc (rw (same, lookup) at h))
  | inr other ↦
      All-append (Elsewhere k) (position_of j s) (candidates_of m)
        (position_of-Elsewhere k j s other) (candidates_of-Elsewhere k m (rw (other, lookup) at h))
]

-- No two positions are of one partition.
abbrev Apart : List CommitPosition → Type 0
Apart [] = Unit
Apart (p ∷ ps) = All (Elsewhere p.partition) ps × Apart ps

candidates_of-Apart : (m : Dict PartitionKey PartitionState) → Distinct m → Apart (candidates_of m)
unfolding candidates_of
candidates_of-Apart [] d = tt
candidates_of-Apart ((k, s) ∷ m) d =
    elim (Option-cases (OffsetTracker.commit_candidate s.tracker)) [
      | inl nothing ↦ rw (nothing, position_of, candidates_of) (candidates_of-Apart m d.1)
      | inr (o, offered) ↦
          rw (offered, position_of) (candidates_of-Elsewhere k m d.0, candidates_of-Apart m d.1)
    ]

-- The partition is owned and its tracker offers nothing.
abbrev Drained : Dict PartitionKey PartitionState → CommitPosition → Type 0
Drained m p =
    (s : PartitionState) × (lookup p.partition m ≡ some s)
    × (OffsetTracker.commit_candidate s.tracker ≡ none)

abbrev confirm_each : PartitionRegistry → List CommitPosition → PartitionRegistry
confirm_each r ps = run r (map confirms ps)

-- A position that is ready: its confirmation changes its own partition and drains it.
confirm-lookup :
    (r : PartitionRegistry) (p : CommitPosition) (k : PartitionKey)
    → IsReady r.partitions p
    → (p.partition == k) ≡ false
    → lookup k (confirm_commit r p).1.partitions ≡ lookup k r.partitions
unfolding put_tracker
confirm-lookup r p k (s, found, same, offered) other =
    ap (λ q. lookup k q.1.partitions) (confirm_current r p s found same)
    ∙ (lookup-insert p.partition k _ r.partitions ∙ rw other)

confirm-Drained :
    (r : PartitionRegistry) (p : CommitPosition)
    → IsValid r
    → IsReady r.partitions p
    → Drained (confirm_commit r p).1.partitions p
unfolding put_tracker
confirm-Drained r p v (s, found, same, offered) = (
  record s { tracker = (OffsetTracker.confirm_commit s.tracker p.offset).1 },
  ap (λ q. lookup p.partition q.1.partitions) (confirm_current r p s found same)
      ∙ (lookup-insert p.partition p.partition _ r.partitions ∙ rw (beq_self p.partition)),
  candidate-confirmed s.tracker p.offset (tracker_at r p.partition s v found) offered,
)

Drained-lookup :
    (m m' : Dict PartitionKey PartitionState) (p : CommitPosition)
    → lookup p.partition m' ≡ lookup p.partition m
    → Drained m p
    → Drained m' p
Drained-lookup m m' p same (s, found, none_left) = (s, same ∙ found, none_left)

IsReady-lookup :
    (m m' : Dict PartitionKey PartitionState) (p : CommitPosition)
    → lookup p.partition m' ≡ lookup p.partition m
    → IsReady m p
    → IsReady m' p
IsReady-lookup m m' p same (s, found, owned, offered) = (s, same ∙ found, owned, offered)

-- The keys of positions that are elsewhere for `p.partition` differ from it, either way round.
differs : (a b : PartitionKey) → (a == b) ≡ false → (b == a) ≡ false
differs a b h = ground (arith, eq_key.same_iff a b, eq_key.same_iff b a)

confirm-IsReady :
    (r : PartitionRegistry) (p : CommitPosition) (ps : List CommitPosition)
    → IsReady r.partitions p
    → All (Elsewhere p.partition) ps
    → All (IsReady r.partitions) ps
    → All (IsReady (confirm_commit r p).1.partitions) ps
confirm-IsReady r p [] ready apart h = tt
confirm-IsReady r p (q ∷ qs) ready apart h = (
  IsReady-lookup r.partitions (confirm_commit r p).1.partitions q
      (confirm-lookup r p q.partition ready (differs q.partition p.partition apart.0)) h.0,
  confirm-IsReady r p qs ready apart.1 h.1,
)

confirm_each-lookup :
    (r : PartitionRegistry) (k : PartitionKey) (ps : List CommitPosition)
    → All (IsReady r.partitions) ps
    → Apart ps
    → All (Elsewhere k) ps
    → lookup k (confirm_each r ps).partitions ≡ lookup k r.partitions
unfolding run step
confirm_each-lookup r k [] ready apart away = refl
confirm_each-lookup r k (p ∷ ps) ready apart away =
    confirm_each-lookup (confirm_commit r p).1 k ps (confirm-IsReady r p ps ready.0 apart.0 ready.1)
      apart.1 away.1
    ∙ confirm-lookup r p k ready.0 away.0

confirm_each-Drained :
    (r : PartitionRegistry) (ps : List CommitPosition)
    → IsValid r
    → All (IsReady r.partitions) ps
    → Apart ps
    → All (Drained (confirm_each r ps).partitions) ps
unfolding run step
confirm_each-Drained r [] v ready apart = tt
confirm_each-Drained r (p ∷ ps) v ready apart =
    let r' : PartitionRegistry = (confirm_commit r p).1 in
    let ready' = confirm-IsReady r p ps ready.0 apart.0 ready.1 in
    (
      Drained-lookup r'.partitions (confirm_each r' ps).partitions p
          (confirm_each-lookup r' p.partition ps ready' apart.1 apart.0)
          (confirm-Drained r p v ready.0),
      confirm_each-Drained r' ps (step-IsValid r (confirms p) v) ready' apart.1,
    )

-- A partition is of none of the positions, or it is that of a drained one.
away_or_empty :
    (m : Dict PartitionKey PartitionState) (k : PartitionKey) (ps : List CommitPosition)
    → All (Drained m) ps
    → All (Elsewhere k) ps
      ⊎ ((s : PartitionState) × (lookup k m ≡ some s)
          × (OffsetTracker.commit_candidate s.tracker ≡ none))
away_or_empty m k [] h = inl tt
away_or_empty m k (p ∷ ps) h = elim (Bool-cases (p.partition == k)) [
  | inl same ↦
      let (s, found, nothing) = h.0 in
      inr (s, subst (λ j. lookup j m ≡ some s) (beq→eq p.partition k same) found, nothing)
  | inr other ↦ elim (away_or_empty m k ps h.1) [
    | inl away ↦ inl (other, away)
    | inr drained ↦ inr drained
  ]
]

Offered-Elsewhere :
    (p : CommitPosition) (ps : List CommitPosition)
    → Offered p ps
    → All (Elsewhere p.partition) ps
    → ⊥
Offered-Elsewhere p [] h away = h
Offered-Elsewhere p (q ∷ qs) (inl e) away = cc (
    sym away.0 ∙ (ap (λ (x : CommitPosition). x.partition == p.partition) e ∙ beq_self p.partition))
Offered-Elsewhere p (q ∷ qs) (inr h) away = Offered-Elsewhere p qs h away.1

Offered-none : (ps : List CommitPosition) → ((p : CommitPosition) → Offered p ps → ⊥) → ps ≡ []
Offered-none [] h = refl
Offered-none (p ∷ ps) h = absurd (h p (inl refl))

candidates-IsReady :
    (r : PartitionRegistry) (ps : List CommitPosition)
    → IsValid r
    → ((p : CommitPosition) → Offered p ps → Offered p (commit_candidates r))
    → All (IsReady r.partitions) ps
candidates-IsReady r [] v within = tt
candidates-IsReady r (p ∷ ps) v within = (
  (commit_candidates_exact r p v).0 (within p (inl refl)),
  candidates-IsReady r ps v (λ q h. within q (inr h)),
)

-- When every position that a registry offers is confirmed, it offers none.
pub candidates-confirmed :
    (r : PartitionRegistry)
    → IsValid r
    → commit_candidates (run r (map confirms (commit_candidates r))) ≡ []
candidates-confirmed r v = Offered-none (commit_candidates r') nothing
  where
    ps : List CommitPosition
    ps = commit_candidates r

    r' : PartitionRegistry
    r' = confirm_each r ps

    ready : All (IsReady r.partitions) ps
    ready = candidates-IsReady r ps v (λ p h. h)

    apart : Apart ps
    apart = unfold commit_candidates in candidates_of-Apart r.partitions v.distinct

    nothing : (p : CommitPosition) → Offered p (commit_candidates r') → ⊥
    nothing p offered =
        let is_ready =
          (commit_candidates_exact r' p (run-IsValid r (map confirms ps) v)).0 offered in
        elim (away_or_empty r'.partitions p.partition ps
          (confirm_each-Drained r ps v ready apart)) [
            | inl away ↦
                Offered-Elsewhere p ps
                  ((commit_candidates_exact r p v).1 (
                    IsReady-lookup r'.partitions r.partitions p
                      (sym (confirm_each-lookup r p.partition ps ready apart away)) is_ready))
                  away
            | inr (s, found, none_left) ↦
                let (x, found', same, some_left) = is_ready in ground arith
          ]
