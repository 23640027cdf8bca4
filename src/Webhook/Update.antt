-- ===== src/Webhook/Update.antt =====
-- Updates that keep the command.
use kshutdown.Base.{
  String, ◌≡◌, refl, sym, eq_iff, Bool-cases, inl, inr, false, [], Result, ok, ◌==◌,
}
use kshutdown.Base.GoMap.{index}
use kshutdown.Api.{ShutdownGroup, annotation_command}
use kshutdown.Api.Client.{Client}
use kshutdown.Authz.{Check}
use kshutdown.Webhook.{
  AdmissionRequest, operation_update, inject, inject_if_changed, default, validate_update,
}

-- An update that keeps the stored command, whatever that is, passes both webhooks: the object is as
-- the user wrote it, its targets and its operator annotation included, and no review is made.
pub default-validate_update :
    (C : Client) (check : Check C) (decode : String → Result ShutdownGroup) (req : AdmissionRequest)
    (old new : ShutdownGroup) (s : C.State)
    → req.operation ≡ operation_update
    → (req.old_object == "") ≡ false
    → decode req.old_object ≡ ok old
    → index new.annotations annotation_command ≡ index old.annotations annotation_command
    → (default decode (ok req) new ≡ (ok tt, new))
      × (validate_update C check (ok req) old new s ≡ (ok [], s))
unfolding default inject inject_if_changed validate_update
default-validate_update C check decode req old new s update raw decoded same =
    elim (Bool-cases (index new.annotations annotation_command == "")) [
      | inl silent ↦ (rw silent refl, rw silent refl)
      | inr asks ↦ (
        rw (asks, update, raw, decoded, (eq_iff _ _).1 (sym same)) refl,
        rw (asks, (eq_iff _ _).1 same) refl,
      )
    ]
