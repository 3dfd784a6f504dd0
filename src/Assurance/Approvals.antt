-- ===== src/Assurance/Approvals.antt =====
-- What the loop of `evaluateAssurancePolicy` remembers of approvals.
use Prim.Native.String.{String}
use uads.Common.{
  All, All-append, Bool, true, false, not, ◌&&◌, ◌||◌, List, [], ◌∷◌, map, filter, true_of_and,
  string_eq, arith, ◌≡◌, refl, inl, inr, Bool-cases,
}
use uads.Gates.Records.{ReviewRecord, verdict_eq}
use uads.Assurance.Roles.{is_recognized_assurance_role}
use uads.Assurance.Binding.{is_nil}
use uads.Assurance.Reviews.{Seen, is_approval, loop_seen, remember}

pub first_holds : (a b : Bool) → (not a || b) ≡ false → a ≡ true
first_holds a b h = ground (arith, h)

pub filter-nil_all :
    (p : String → Bool) (xs : List String) → filter p xs ≡ [] → All (λ x. p x ≡ false) xs
unfolding filter
filter-nil_all p [] h = tt
filter-nil_all p (x ∷ xs) h = elim (Bool-cases (p x)) [
  | inl keep ↦ let k : x ∷ filter p xs ≡ [] = rw keep at h in cc k
  | inr drop ↦ (drop, filter-nil_all p xs (rw drop at h))
]

pub map-nil : {A B : Type 0} (f : A → B) (xs : List A) → map f xs ≡ [] → xs ≡ []
map-nil f [] h = refl
map-nil f (x ∷ xs) h = cc h

pub nil_of : {A : Type 0} (xs : List A) → is_nil xs ≡ true → xs ≡ []
nil_of [] h = refl
nil_of (x ∷ xs) h = cc h

-- What is remembered as an approval is one, and has what all reviews of the loop have.
module _ (P : ReviewRecord → Type 0) where
  abbrev pub Approved : ReviewRecord → Type 0
  Approved r = P r × (is_approval r ≡ true)

  All-remember :
      (seen : Seen) (r : ReviewRecord)
      → P r
      → All Approved seen.approvals
      → All Approved (remember seen r).approvals
  unfolding remember
  All-remember seen r p h =
      elim (Bool-cases (is_recognized_assurance_role r.reviewer_role && is_approval r)) [
        | inl counted ↦
            let approved = (true_of_and _ _ counted).1 in
            rw counted (All-append Approved seen.approvals (r ∷ []) h ((p, approved), tt))
        | inr passed_over ↦ rw passed_over h
      ]

  pub All-loop_seen :
      (seen : Seen) (rs : List ReviewRecord)
      → All P rs
      → All Approved seen.approvals
      → All Approved (loop_seen seen rs).approvals
  unfolding loop_seen
  All-loop_seen seen [] h k = k
  All-loop_seen seen (r ∷ rs) h k =
      All-loop_seen (remember seen r) rs h.1 (All-remember seen r h.0 k)
