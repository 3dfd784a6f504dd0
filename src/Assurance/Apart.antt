-- ===== src/Assurance/Apart.antt =====
-- Approvals of the loop, and when two of them stand apart.
use Prim.Native.String.{String}
use uads.Common.{
  All, All-map, Bool, true, false, not, ◌||◌, List, [], ◌∷◌, ◌++◌, none, some, any, filter,
  append-nil_iff, ◌==◌, string_eq, arith, ◌≡◌, ◌≢◌, refl, inl, inr, Option-cases,
}
use uads.Common.Find.{any-append}
use uads.Gates.Records.{EvidenceRecord, ReviewRecord}
use uads.Assurance.Types.{AssurancePolicyInput}
use uads.Assurance.Roles.{is_recognized_assurance_role}
use uads.Assurance.Reviews.{
  Seen, approval_objections, approvals_of, has_more_than_one, is_approval, is_of_role,
  is_session_reused, loop_objections, nothing_seen, remember, role_of_session,
}
use uads.Assurance.Sound.{check_first, review_objections-nil}

-- Of two approvals, neither the role nor the session is the same.
abbrev pub AreApart : ReviewRecord → ReviewRecord → Type 0
AreApart r s =
    is_approval r ≡ true
    → is_approval s ≡ true
    → (r.reviewer_role ≢ s.reviewer_role) × (r.review_session_id ≢ s.review_session_id)

abbrev pub AllApart : List ReviewRecord → Type 0
AllApart [] = Unit
AllApart (r ∷ rs) = All (AreApart r) rs × AllApart rs

-- Every session is remembered with a role that has an approval.
abbrev IsKept : Seen → Type 0
IsKept seen =
    (session role : String)
    → role_of_session seen.sessions session ≡ some role
    → any (is_of_role role) seen.approvals ≡ true

abbrev IsFresh : Seen → ReviewRecord → Type 0
IsFresh seen r =
    (any (is_of_role r.reviewer_role) seen.approvals ≡ false)
    × (role_of_session seen.sessions r.review_session_id ≡ none)

only_one :
    (xs : List ReviewRecord) (r : ReviewRecord)
    → has_more_than_one (xs ++ (r ∷ [])) ≡ false
    → xs ≡ []
only_one [] r h = refl
only_one (x ∷ []) r h = cc h
only_one (x ∷ y ∷ xs) r h = cc h

filtered_none :
    (p : ReviewRecord → Bool) (xs : List ReviewRecord) → filter p xs ≡ [] → any p xs ≡ false
unfolding filter any
filtered_none p [] h = refl
filtered_none p (x ∷ xs) h = ground (arith, filtered_none p xs)

fresh_session :
    (seen : Seen) (r : ReviewRecord)
    → IsKept seen
    → any (is_of_role r.reviewer_role) seen.approvals ≡ false
    → is_session_reused seen r ≡ false
    → role_of_session seen.sessions r.review_session_id ≡ none
unfolding is_session_reused
fresh_session seen r kept unseen h =
    elim (Option-cases (role_of_session seen.sessions r.review_session_id)) [
      | inl missing ↦ missing
      | inr (role, found) ↦
          let present = kept r.review_session_id role found in
          let other : not (role == r.reviewer_role) ≡ false = rw found at h in
          let same : role ≡ r.reviewer_role =
            (string_eq.beq_iff role r.reviewer_role).0 (ground (arith, other)) in
          let here : any (is_of_role r.reviewer_role) seen.approvals ≡ true = rw same at present in
          absurd (let no : true ≡ false = rw here at unseen in cc no)
    ]

any_last :
    (xs : List ReviewRecord) (role : String) (r : ReviewRecord)
    → any (is_of_role role) (xs ++ (r ∷ [])) ≡ (any (is_of_role role) xs || r.reviewer_role == role)
unfolding any
any_last xs role r = ground (arith, any-append (is_of_role role) xs (r ∷ []))

remember-IsKept : (seen : Seen) (r : ReviewRecord) → IsKept seen → IsKept (remember seen r)
unfolding remember role_of_session
remember-IsKept seen r kept session role h = ground (
  arith,
  h,
  kept session role,
  any_last seen.approvals role r,
  string_eq.beq_iff r.reviewer_role role,
)

-- What is fresh after a review was fresh before it, and apart from it.
IsFresh-before : (seen : Seen) (r s : ReviewRecord) → IsFresh (remember seen r) s → IsFresh seen s
unfolding remember role_of_session
IsFresh-before seen r s h = ground (arith, h, any_last seen.approvals s.reviewer_role r)

fresh_apart :
    (seen : Seen) (r s : ReviewRecord)
    → is_recognized_assurance_role r.reviewer_role ≡ true
    → is_session_reused seen r ≡ false
    → is_approval r ≡ true
    → IsFresh (remember seen r) s
    → (r.reviewer_role ≢ s.reviewer_role) × (r.review_session_id ≢ s.review_session_id)
unfolding remember role_of_session
fresh_apart seen r s known reused approved h =
    let first : any (is_of_role s.reviewer_role) (seen.approvals ++ (r ∷ [])) ≡ false =
      rw (known, approved) at h.0 in
    let second : role_of_session ((r.review_session_id, r.reviewer_role) ∷ seen.sessions)
          s.review_session_id
        ≡ none =
      rw (known, approved, reused) at h.1 in
    (
      (λ e. ground (
        arith,
        first,
        any_last seen.approvals s.reviewer_role r,
        (string_eq.beq_iff r.reviewer_role s.reviewer_role).1 e,
      )),
      (λ e.
          ground (arith, second, (string_eq.beq_iff r.review_session_id s.review_session_id).1 e)),
    )

module _ (input : AssurancePolicyInput) (roles : List String) (evidence : List EvidenceRecord) where
  approval_objections-nil :
      (seen : Seen) (r : ReviewRecord)
      → approval_objections input roles evidence seen r ≡ []
      → (is_session_reused seen r ≡ false)
        × (any (is_of_role r.reviewer_role) seen.approvals ≡ false)
  unfolding approval_objections approvals_of
  approval_objections-nil seen r h =
      let (reused, h) = check_first _ _ _ _ h in
      let (double, h) = check_first _ _ _ _ h in
      (reused, filtered_none (is_of_role r.reviewer_role) seen.approvals (only_one _ r double))

  loop-IsFresh :
      (seen : Seen) (rs : List ReviewRecord)
      → IsKept seen
      → loop_objections input roles evidence seen rs ≡ []
      → All (λ r. is_approval r ≡ true → IsFresh seen r) rs × AllApart rs
  unfolding loop_objections
  loop-IsFresh seen [] kept h = (tt, tt)
  loop-IsFresh seen (r ∷ rs) kept h =
      let (here, later) = (append-nil_iff _ _).0 h in
      let (known, independent, consistent, approval) =
        review_objections-nil input roles evidence seen r here in
      let (fresh, apart) = loop-IsFresh (remember seen r) rs (remember-IsKept seen r kept) later in
      (
        (
          (λ e.
              let (reused, unseen) = approval_objections-nil seen r (approval e) in
              (unseen, fresh_session seen r kept unseen reused)),
          All-map rs (λ s f e. IsFresh-before seen r s (f e)) fresh,
        ),
        (
          All-map rs
              (λ s f e k.
                fresh_apart seen r s known (approval_objections-nil seen r (approval e)).0 e (f k))
              fresh,
          apart,
        ),
      )

  pub loop_objections-AllApart :
      (rs : List ReviewRecord)
      → loop_objections input roles evidence nothing_seen rs ≡ []
      → AllApart rs
  unfolding role_of_session
  loop_objections-AllApart rs h = (loop-IsFresh nothing_seen rs (λ session role e. cc e) h).1
