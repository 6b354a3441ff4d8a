-- ===== src/Llm/Router/Choice/Tally.antt =====
-- The votes of llm/router.py (`_run_parallel_vote`), counted and grouped by text.
use mathlib.Core.List.{append_assoc, append-nil}
use haojie.Common.{
  ℕ, zero, suc, ◌+◌, ◌<◌, ◌≡◌, refl, sym, ap, Option, none, some, String, List, [], ◌∷◌, ◌++◌,
  arith, if◌then◌else◌, Dict, lookup, insert, Distinct, Distinct-insert, All, get_or, length,
  str_eq, str_eq_iff, str_eq_refl, lookup-insert, Bool-cases, inl, inr,
}
use haojie.Llm.Router.{Candidate}
use haojie.Llm.Router.Choice.{key_of, count_votes, group}

-- The candidates that vote for a text.
unfoldable pub voters : String → List Candidate → List Candidate
voters k [] = []
voters k (c ∷ cs) = let rest = voters k cs in if str_eq (key_of c) k then c ∷ rest else rest

pub group-lookup :
    (k : String) (cs : List Candidate) (d : Dict (List Candidate))
    → get_or (lookup k (group cs d)) [] ≡ get_or (lookup k d) [] ++ voters k cs
unfolding group voters
group-lookup k [] d = sym (append-nil (get_or (lookup k d) []))
group-lookup k (c ∷ cs) d =
    let old = get_or (lookup (key_of c) d) [] in
    let d' = insert (key_of c) (old ++ c ∷ []) d in
    elim (Bool-cases (str_eq (key_of c) k)) [
      | inl same ↦
          let e : key_of c ≡ k = (str_eq_iff (key_of c) k).0 same in
          let q : old ≡ get_or (lookup k d) [] = ap (λ i. get_or (lookup i d) []) e in
          rw (same, group-lookup k cs d', lookup-insert (key_of c) k (old ++ c ∷ []) d, same, q)
            (append_assoc (get_or (lookup k d) []) (c ∷ []) (voters k cs))
      | inr other ↦
          rw (other, group-lookup k cs d', lookup-insert (key_of c) k (old ++ c ∷ []) d, other) refl
    ]

-- What an entry of the tally says, with `n` votes before.
unfoldable pub counts : Option ℕ → ℕ → Option ℕ
counts none zero = none
counts none (suc n) = some (suc n)
counts (some m) n = some (m + n)

counts-zero : (o : Option ℕ) → counts o 0 ≡ o
unfolding counts
counts-zero none = refl
counts-zero (some m) = ap some (omega arith)

counts-suc : (o : Option ℕ) (n : ℕ) → counts (some (get_or o 0 + 1)) n ≡ counts o (suc n)
unfolding counts
counts-suc none n = ap some (omega arith)
counts-suc (some m) n = ap some (omega arith)

pub count_votes-lookup :
    (k : String) (cs : List Candidate) (d : Dict ℕ)
    → lookup k (count_votes cs d) ≡ counts (lookup k d) (length (voters k cs))
unfolding count_votes voters
count_votes-lookup k [] d = sym (counts-zero (lookup k d))
count_votes-lookup k (c ∷ cs) d =
    let old = get_or (lookup (key_of c) d) 0 in
    let d' = insert (key_of c) (old + 1) d in
    elim (Bool-cases (str_eq (key_of c) k)) [
      | inl same ↦
          let e : key_of c ≡ k = (str_eq_iff (key_of c) k).0 same in
          let q : old ≡ get_or (lookup k d) 0 = ap (λ i. get_or (lookup i d) 0) e in
          rw (same, count_votes-lookup k cs d', lookup-insert (key_of c) k (old + 1) d, same, q)
            (counts-suc (lookup k d) (length (voters k cs)))
      | inr other ↦
          rw (other, count_votes-lookup k cs d', lookup-insert (key_of c) k (old + 1) d, other) refl
    ]

pub count_votes-Distinct :
    (cs : List Candidate) (d : Dict ℕ) → Distinct d → Distinct (count_votes cs d)
unfolding count_votes
count_votes-Distinct [] d h = h
count_votes-Distinct (c ∷ cs) d h = count_votes-Distinct cs _ (Distinct-insert (key_of c) _ d h)

pub data IsAmong (w : Candidate) : List Candidate → Type 0 where
  here : {l : List Candidate} → IsAmong w (w ∷ l)
  there : {c : Candidate} {l : List Candidate} → IsAmong w l → IsAmong w (c ∷ l)

-- Who votes for a text is a candidate with that text.
pub voters-All :
    (k : String) (all cs : List Candidate)
    → ((x : Candidate) → IsAmong x cs → IsAmong x all)
    → All (λ x. IsAmong x all × (key_of x ≡ k)) (voters k cs)
unfolding voters
voters-All k all [] h = tt
voters-All k all (c ∷ cs) h =
    let rest = voters-All k all cs (λ x i. h x (there i)) in
    elim (Bool-cases (str_eq (key_of c) k)) [
      | inl same ↦ rw same ((h c here, (str_eq_iff (key_of c) k).0 same), rest)
      | inr other ↦ rw other rest
    ]

pub voters_pos :
    (x : Candidate) (l : List Candidate) → IsAmong x l → 0 < length (voters (key_of x) l)
unfolding voters
voters_pos x l (here {l = cs}) = rw (str_eq_refl (key_of x)) (omega arith)
voters_pos x l (there {c = c} {l = cs} i) = ground (arith, voters_pos x cs i)
