-- ===== src/Team/Invites/Inviting.antt =====
-- Addresses that are taken or already invited.
use orkai.Prelude.{
  ℕ, ◌+◌, String, ◌≡◌, refl, true, false, none, some, [], arith, ◌==◌, filter, any, any-filter-last,
  ==_refl, eq_refl,
}
use orkai.Result.{ok, err, message}
use orkai.Exec.{◌>>=◌}
use orkai.Model.Accounts.{Invitation}
use orkai.World.{World}
use orkai.Store.Accounts.Invitations as Invitations
use orkai.Team.Invites.{week, is_pending, invite_by_mail}

abbrev pub already_pending : String
already_pending = "an invitation is already pending for this email"

new_is_pending :
    (now : ℕ) (inv : Invitation)
    → inv.expires_at ≡ now + week
    → inv.accepted_at ≡ none
    → is_pending inv.email now inv ≡ true
new_is_pending now inv e a = rw (eq_refl inv.email, a, e) (ground arith)

abbrev new_invitation : ℕ → ℕ → ℕ → String → String → String → ℕ → Invitation
new_invitation id org_id invited_by email role token now = record {
  id = id;
  org_id = org_id;
  email = email;
  role = role;
  token = token;
  invited_by = some invited_by;
  expires_at = now + week;
  accepted_at = none;
}

module _ (to_lower : String → String) (w : World) (up : w.faults ≡ []) where
  -- With the database up, and no pending invitation of the address in the organization, a second
  -- invitation of the address right after the first is refused, and changes nothing.
  pub invite_by_mail-twice :
      (token again : String) (org_id invited_by : ℕ) (email role : String)
      → any (is_pending email w.now) (filter (λ inv. inv.org_id == org_id) w.db.invitations) ≡ false
      → let w' = (invite_by_mail to_lower (ok token) org_id invited_by email role w).1 in
        invite_by_mail to_lower (ok again) org_id invited_by email role w'
        ≡ (err (message already_pending), w')
  unfolding invite_by_mail Invitations.list_by_org Invitations.create ◌>>=◌
  invite_by_mail-twice token again org_id invited_by email role none_pending =
      let inv = new_invitation w.db.next_id org_id invited_by email role token w.now in
      rw
        (
          up,
          none_pending,
          any-filter-last (is_pending email w.now) (λ i. i.org_id == org_id) w.db.invitations inv
              (==_refl org_id) (new_is_pending w.now inv refl refl),
        )
        refl
