-- ===== src/Authz.antt =====
-- internal/authz: access reviews by the manager's client (sar.go). The verb and the resource are
-- fields of the review.
pub mod Caller
use kshutdown.Base.{◌<>◌, Bool, Option, none, some, Effect, Ensures, Ensures-rewrap, context, ◌≡◌}
use kshutdown.Api.Client.{Client, Review, IsLawful}

-- The type of `checkPermission`.
abbrev pub Check : Client → Type 0
Check C = Review → Effect C.State Bool

-- `CheckFor`
unfoldable pub check_for : (C : Client) → Check C
check_for C r =
    context
      ("subjectaccessreview " <> r.verb <> " " <> r.namespace <> "/" <> r.name <> " (" <> r.resource
        <> ")")
      (C.create_review r)

-- `sarCheck`, of the reconciler and of the validator: the injected check if there is one.
unfoldable pub sar_check : (C : Client) → Option (Check C) → Check C
sar_check C none = check_for C
sar_check C (some check) = check

-- A check that answers as the authorizer does and changes nothing.
abbrev pub IsFaithful : (C : Client) → Type 0 → Check C → Type 0
IsFaithful C MayFail check =
    (r : Review) (s : C.State)
    → Ensures (λ b s'. (C.world s' ≡ C.world s) × (b ≡ (C.world s).allowed r))
        (λ s'. (C.world s' ≡ C.world s) × MayFail) (check r s)

pub check_for-IsFaithful :
    (C : Client) (MayFail : Type 0) → IsLawful C MayFail → IsFaithful C MayFail (check_for C)
unfolding check_for
check_for-IsFaithful C MayFail L r s =
    Ensures-rewrap _ (λ s'. (C.world s' ≡ C.world s) × MayFail) _ (C.create_review r s)
      (L.create_review_lem r s)
