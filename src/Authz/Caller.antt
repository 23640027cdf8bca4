-- ===== src/Authz/Caller.antt =====
-- internal/authz/selfsar.go: reviews of the caller's own access, by the client that the kubectl
-- plugin builds. Its two calls are parameters.
use kshutdown.Base.{String, ◌<>◌, ◌≡◌, Bool, List, Effect, context, Ensures}
use kshutdown.Api.Client.{Client, Review}

-- The attributes of a SelfSubjectAccessReview.
pub record SelfReview : Type 0 where
  pub namespace : String
  pub verb : String
  pub group : String
  pub resource : String
  pub name : String

-- The clientset's calls: a SelfSubjectAccessReview's answer, and a SelfSubjectReview's user name.
pub record Caller (C : Client) : Type 0 where
  pub create_self_review : SelfReview → Effect C.State Bool
  pub create_subject_review : Effect C.State String

module _ (C : Client) (caller : Caller C) where
  unfoldable pub check_patch : String → String → String → String → Effect C.State Bool
  check_patch namespace group resource name =
      context
        ("selfsubjectaccessreview for " <> namespace <> "/" <> name <> " (" <> resource <> ")")
        (caller.create_self_review (record {
          namespace = namespace;
          verb = "patch";
          group = group;
          resource = resource;
          name = name;
        }))

  unfoldable pub current_username : Effect C.State String
  current_username = context "selfsubjectreview" caller.create_subject_review

-- A self review is a review with the caller's name and groups.
abbrev pub as_review : String → List String → SelfReview → Review
as_review user groups r = record {
  user = user;
  groups = groups;
  namespace = r.namespace;
  group = r.group;
  resource = r.resource;
  name = r.name;
  verb = r.verb;
}

-- The answers are the authorizer's for the caller, and the reviews change nothing.
pub record IsCaller (C : Client) (MayFail : Type 0) (caller : Caller C) (user : String)
    (groups : List String) : Type 0 where
  pub self_review_lem :
      (r : SelfReview) (s : C.State)
      → Ensures
          (λ b s'. (C.world s' ≡ C.world s) × (b ≡ (C.world s).allowed (as_review user groups r)))
          (λ s'. (C.world s' ≡ C.world s) × MayFail)
          (caller.create_self_review r s)
  pub subject_review_lem :
      (s : C.State)
      → Ensures
          (λ name s'. (C.world s' ≡ C.world s) × (name ≡ user))
          (λ s'. (C.world s' ≡ C.world s) × MayFail)
          (caller.create_subject_review s)
