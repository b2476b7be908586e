-- ===== src/Models/StrongId/Shape.antt =====
-- What an identifier looks like (shared/models/OrderIds.h), apart from the regular expression.
use liquid_pet_project.Prelude.{
  ℕ, zero, suc, ◌≡◌, ◌↔◌, inl, inr, refl, sym, ap, ◌∙◌, true, List, [], ◌∷◌, ◌++◌, append-nil,
  String, arith, replicate, characters, length, All, Bool-cases, ok, ◌==◌, eq_string, beq→eq,
}
use mathlib.Core.Path.{subst}
use liquid_pet_project.Errors.{strong_id_enum}
use liquid_pet_project.Models.StrongId.{
  Tag, StrongId, is_hex_digit, Place, hex, dash, fits, uuid_pattern, matches, is_valid_uuid, create,
}

abbrev pub IsHex : ℕ → Type 0
IsHex c = is_hex_digit c ≡ true

-- A run of so many hexadecimal digits.
abbrev pub IsRun : ℕ → List ℕ → Type 0
IsRun n cs = (length cs ≡ n) × All IsHex cs

-- Five runs of hexadecimal digits with a dash between them.
pub record IsUuid (cs : List ℕ) : Type 0 where
  pub time_low : List ℕ
  pub time_mid : List ℕ
  pub time_high : List ℕ
  pub clock : List ℕ
  pub node : List ℕ
  pub together :
      cs
      ≡ time_low ++ (b'-' ∷ (time_mid ++ (b'-' ∷ (time_high ++ (b'-' ∷ (clock ++ (b'-' ∷ node)))))))
  pub runs :
      IsRun 8 time_low × (IsRun 4 time_mid × (IsRun 4 time_high × (IsRun 4 clock × IsRun 12 node)))

matches-hexes :
    (n : ℕ) (ps : List Place) (cs : List ℕ)
    → matches (replicate n hex ++ ps) cs ≡ true
    → (a : List ℕ) × ((b : List ℕ) × ((cs ≡ a ++ b) × (IsRun n a × (matches ps b ≡ true))))
unfolding matches fits
matches-hexes zero ps cs h = ([], (cs, (refl, ((refl, tt), h))))
matches-hexes (suc n) ps [] h = absurd (ground arith)
matches-hexes (suc n) ps (c ∷ cs) h =
    let digit : is_hex_digit c ≡ true = ground arith in
    let rest : matches (replicate n hex ++ ps) cs ≡ true = ground arith in
    let (a, (b, (q, ((len, digits), more)))) = matches-hexes n ps cs rest in
    (c ∷ a, (b, (ap (λ l. c ∷ l) q, ((omega (arith, len), (digit, digits)), more))))

hexes-match :
    (n : ℕ) (ps : List Place) (a b : List ℕ)
    → IsRun n a
    → matches ps b ≡ true
    → matches (replicate n hex ++ ps) (a ++ b) ≡ true
unfolding matches fits
hexes-match zero ps [] b r h = h
hexes-match zero ps (c ∷ a) b r h = absurd (omega (arith, r.0))
hexes-match (suc n) ps [] b r h = absurd (omega (arith, r.0))
hexes-match (suc n) ps (c ∷ a) b r h =
    let rest = hexes-match n ps a b (omega (arith, r.0), r.1.1) h in
    let digit = r.1.0 in ground arith

matches-dash :
    (ps : List Place) (cs : List ℕ)
    → matches (dash ∷ ps) cs ≡ true
    → (b : List ℕ) × ((cs ≡ b'-' ∷ b) × (matches ps b ≡ true))
unfolding matches fits
matches-dash ps [] h = absurd (ground arith)
matches-dash ps (c ∷ cs) h = (cs, (ap (λ x. x ∷ cs) (ground arith), ground arith))

matches-end : (cs : List ℕ) → matches [] cs ≡ true → cs ≡ []
unfolding matches
matches-end [] h = refl
matches-end (c ∷ cs) h = absurd (ground arith)

abbrev from_node : List Place
from_node = replicate 12 hex ++ []

abbrev from_clock : List Place
from_clock = replicate 4 hex ++ (dash ∷ from_node)

abbrev from_high : List Place
from_high = replicate 4 hex ++ (dash ∷ from_clock)

abbrev from_mid : List Place
from_mid = replicate 4 hex ++ (dash ∷ from_high)

uuid_pattern_lem : uuid_pattern ≡ replicate 8 hex ++ (dash ∷ from_mid)
unfolding uuid_pattern
uuid_pattern_lem = refl

-- A run and the dash after it.
split_off :
    (n : ℕ) (ps : List Place) (cs : List ℕ)
    → matches (replicate n hex ++ (dash ∷ ps)) cs ≡ true
    → (a : List ℕ) × ((b : List ℕ) × ((cs ≡ a ++ (b'-' ∷ b)) × (IsRun n a × (matches ps b ≡ true))))
split_off n ps cs h =
    let (a, (b, (q, (r, more)))) = matches-hexes n (dash ∷ ps) cs h in
    let (rest, (p, last)) = matches-dash ps b more in
    (a, (rest, (q ∙ ap (λ l. a ++ l) p, (r, last))))

join_on :
    (n : ℕ) (ps : List Place) (a b : List ℕ)
    → IsRun n a
    → matches ps b ≡ true
    → matches (replicate n hex ++ (dash ∷ ps)) (a ++ (b'-' ∷ b)) ≡ true
unfolding matches fits
join_on n ps a b r h = hexes-match n (dash ∷ ps) a (b'-' ∷ b) r h

matches-IsUuid : (cs : List ℕ) → matches uuid_pattern cs ≡ true → IsUuid cs
matches-IsUuid cs h =
    let (a, (b1, (qa, (ra, h1)))) =
      split_off 8 from_mid cs (subst (λ p. matches p cs ≡ true) uuid_pattern_lem h) in
    let (b, (b2, (qb, (rb, h2)))) = split_off 4 from_high b1 h1 in
    let (c, (b3, (qc, (rc, h3)))) = split_off 4 from_clock b2 h2 in
    let (d, (b4, (qd, (rd, h4)))) = split_off 4 from_node b3 h3 in
    let (e, (b5, (qe, (re, h5)))) = matches-hexes 12 [] b4 h4 in
    let last : b4 ≡ e = qe ∙ ap (λ l. e ++ l) (matches-end b5 h5) ∙ append-nil e in
    record {
      time_low = a;
      time_mid = b;
      time_high = c;
      clock = d;
      node = e;
      together =
          qa
          ∙ ap (λ l. a ++ (b'-' ∷ l))
              (qb
                ∙ ap (λ l. b ++ (b'-' ∷ l))
                    (qc ∙ ap (λ l. c ++ (b'-' ∷ l)) (qd ∙ ap (λ l. d ++ (b'-' ∷ l)) last)));
      runs = (ra, (rb, (rc, (rd, re))));
    }

IsUuid-matches : (cs : List ℕ) → IsUuid cs → matches uuid_pattern cs ≡ true
unfolding matches
IsUuid-matches cs u =
    let (ra, (rb, (rc, (rd, re)))) = u.runs in
    let node : matches from_node u.node ≡ true =
      subst (λ l. matches from_node l ≡ true) (append-nil u.node)
        (hexes-match 12 [] u.node [] re refl) in
    subst (λ p. matches p cs ≡ true) (sym uuid_pattern_lem)
      (subst (λ l. matches (replicate 8 hex ++ (dash ∷ from_mid)) l ≡ true) (sym u.together)
        (join_on 8 from_mid u.time_low _ ra (
          join_on 4 from_high u.time_mid _ rb
            (join_on 4 from_clock u.time_high _ rc (join_on 4 from_node u.clock u.node rd node)))))

nothing_not-IsUuid : (value : String) → (value == "") ≡ true → ¬ IsUuid (characters value)
unfolding matches uuid_pattern
nothing_not-IsUuid value h u =
    let at_empty = subst (λ v. IsUuid (characters v)) (beq→eq value "" h) u in
    cc (IsUuid-matches (characters "") at_empty)

-- An identifier is made exactly of the texts that are five runs of 8, 4, 4, 4 and 12 hexadecimal
-- digits with dashes between them, and it keeps the text.
pub create_iff :
    (t : Tag) (value : String) (id : StrongId t)
    → (create t value ≡ ok id) ↔ (IsUuid (characters value) × (id ≡ record { value = value }))
unfolding create is_valid_uuid
create_iff t value id = elim (Bool-cases (is_valid_uuid value)) [
  | inr bad ↦
      (λ h. absurd (ground arith), λ h. absurd (cc (bad, IsUuid-matches (characters value) h.0)))
  | inl good ↦ elim (Bool-cases (value == "")) [
    | inl nothing ↦
        absurd (nothing_not-IsUuid value nothing (matches-IsUuid (characters value) good))
    | inr something ↦
        (λ h. (matches-IsUuid (characters value) good, ground arith), λ h. ground (arith, h.1))
  ]
]
