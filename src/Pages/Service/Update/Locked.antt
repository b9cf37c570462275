-- ===== src/Pages/Service/Update/Locked.antt =====
-- What a page refuses while it is deploying.
use orkai.Prelude.{
  ℕ, String, ◌≡◌, refl, sym, ◌∙◌, Bool, true, false, Option, none, some, find?, ◌||◌, ◌&&◌, not,
  str_eq, if◌then◌else◌, arith,
}
use orkai.Prelude.Text.{trim_space}
use orkai.Result.{Error}
use orkai.Exec.{Exec}
use orkai.Exec.Triple.{
  Both, Triple, Triple-bind, Triple-pure, Triple-fact, Triple-throw_if, Triple-if, Triple-weaken,
  Triple-from_Preserves,
}
use orkai.Model.Pages.{Page}
use orkai.World.{World, Db, request}
use orkai.Store.Reads.{Reads, HasDb}
use orkai.Store.Atomic.{fetch-Same}
use orkai.Store.Pages as Pages
use orkai.Pages.Env.{PageEnv}
use orkai.Pages.Domains.{is_empty}
use orkai.Pages.Requests.{trigger}
use orkai.Pages.Service.{delete, is_domain_locked, is_cloud_provisioned}
use orkai.Pages.Service.Update.{
  UpdatePageInput, edited, git_stage, same_account, account_stage, region_stage, retarget, settings,
  given, domain_stage, update, with_domain, keep_domain, change_domain, touches_domain, is_aws,
}
use orkai.Pages.Service.Update.Reading.{
  validate_resource-Reads, validate_cloud_account-Reads, resolve_org-Reads, check_manager-Reads,
  check_domain-Reads,
}

-- `q` is `p` with the same status and cloud target.
record SameTarget (p q : Page) : Type 0 where
  status : q.status ≡ p.status
  account : q.cloud_account_id ≡ p.cloud_account_id
  region : q.region ≡ p.region

moves_account : Option ℕ → Page → Bool
moves_account none p = false
moves_account (some id) p = not (same_account p.cloud_account_id id)

moves_region : Option String → Page → Bool
moves_region none p = false
moves_region (some region) p = not (str_eq region p.region)

-- The request asks for another cloud account or another region than the page has.
unfoldable pub retargets : UpdatePageInput → Page → Bool
unfolding moves_account moves_region
retargets i p = moves_account i.cloud_account_id p || moves_region i.region p

module _ (db : Db) where
  abbrev Ends : {A : Type 0} → Exec World A → Type 0
  Ends m = Triple (HasDb db) m (λ _ _. ⊥) (HasDb db)

  reading :
      {A : Type 0} (m : Exec World A) → Reads m → Triple (HasDb db) m (λ _. HasDb db) (HasDb db)
  reading m r = Triple-from_Preserves m (λ w h. h) (r db)

  git_stage-SameTarget :
      (id : Option ℕ) (p : Page)
      → Triple (HasDb db) (git_stage id p) (λ r w. HasDb db w × SameTarget p r.0) (HasDb db)
  unfolding git_stage
  git_stage-SameTarget none p =
      Triple-pure _ (λ w h. (h, record { status = refl; account = refl; region = refl }))
  git_stage-SameTarget (some id) p = Triple-bind _ _ (reading _ (resolve_org-Reads p none)) (λ o.
      Triple-bind _ _ (reading _ (validate_resource-Reads _ _ _))
        (λ _. Triple-pure _ (λ w h. (h, record { status = refl; account = refl; region = refl }))))

  module _ (env : PageEnv) (i : UpdatePageInput) (p : Page) (known : Option ℕ) where
    keep_domain-SameTarget :
        Triple
          (HasDb db)
          (keep_domain env i p known)
          (λ r w. HasDb db w × SameTarget p r.0)
          (HasDb db)
    unfolding keep_domain
    keep_domain-SameTarget =
        Triple-bind _ _ (Triple-throw_if (touches_domain i) _ (λ w h. h)) (λ _.
          Triple-pure _ (λ w h. (h.0, record { status = refl; account = refl; region = refl })))

    change_domain-SameTarget :
        Triple
          (HasDb db)
          (change_domain env i p known)
          (λ r w. HasDb db w × SameTarget p r.0)
          (HasDb db)
    unfolding change_domain with_domain
    change_domain-SameTarget = Triple-bind _ _ (reading _ (resolve_org-Reads p known)) (λ o.
        Triple-bind _ _ (reading _ (check_domain-Reads env i (with_domain env i p) o)) (λ _.
          Triple-pure _ (λ w h. (h, record { status = refl; account = refl; region = refl }))))

    domain_stage-SameTarget :
        Triple
          (HasDb db)
          (domain_stage env i p known)
          (λ r w. HasDb db w × SameTarget p r.0)
          (HasDb db)
    unfolding domain_stage
    domain_stage-SameTarget =
        Triple-if (is_domain_locked p) (keep_domain env i p known) (change_domain env i p known)
          (λ _. keep_domain-SameTarget) (λ _. change_domain-SameTarget)

  -- The account stage lets a deploying page through only with the account that it has.
  account_stage-stays :
      (id : Option ℕ) (p : Page) (known : Option ℕ)
      → Pages.is_deploying p.status ≡ true
      → Triple
          (HasDb db)
          (account_stage id p known)
          (λ r w.
            HasDb db w
            × ((moves_account id p ≡ false) × ((r.0.status ≡ p.status) × (r.0.region ≡ p.region))))
          (HasDb db)
  unfolding account_stage moves_account
  account_stage-stays none p known busy = Triple-pure _ (λ w h. (h, (refl, (refl, refl))))
  account_stage-stays (some id) p known busy =
      Triple-bind _ _
        (Triple-throw_if
          (not (same_account p.cloud_account_id id)
            && (Pages.is_deploying p.status || is_cloud_provisioned p))
          _ (λ w h. h))
        (λ _. Triple-fact _ (λ same.
          let stays : not (same_account p.cloud_account_id id) ≡ false = ground arith in
          Triple-bind _ _ (reading _ (resolve_org-Reads p known)) (λ o.
            Triple-bind _ _ (reading _ (validate_resource-Reads o id _)) (λ _.
              Triple-bind _ _ (reading _ (validate_cloud_account-Reads p.provider id))
                (λ _. Triple-pure _ (λ w h. (h, (stays, (refl, refl)))))))))

  region_stage-stays :
      (r : Option String) (p : Page)
      → Pages.is_deploying p.status ≡ true
      → Triple
          (HasDb db)
          (region_stage r p)
          (λ _ w. HasDb db w × (moves_region r p ≡ false))
          (HasDb db)
  unfolding region_stage moves_region
  region_stage-stays none p busy = Triple-pure _ (λ w h. (h, refl))
  region_stage-stays (some region) p busy =
      Triple-bind _ _ (Triple-throw_if (not (is_aws p.provider)) _ (λ w h. h)) (λ _.
        Triple-bind _ _
          (Triple-throw_if
            (not (str_eq region p.region)
              && (Pages.is_deploying p.status || not (is_empty p.runtime.bucket_name)))
            _ (λ w h. h.0))
          (λ _. Triple-pure _ (λ w h. let same = h.1 in (h.0.0, ground arith))))

  region_of :
      (r : Option String) (p q : Page) → q.region ≡ p.region → moves_region r q ≡ moves_region r p
  unfolding moves_region
  region_of none p q e = refl
  region_of (some r) p q e = rw e refl

  account_of :
      (a : Option ℕ) (p q : Page)
      → q.cloud_account_id ≡ p.cloud_account_id
      → moves_account a q ≡ moves_account a p
  unfolding moves_account
  account_of none p q e = refl
  account_of (some a) p q e = rw e refl

  stays-absurd :
      (i : UpdatePageInput) (p q : Page)
      → retargets i p ≡ true
      → moves_account i.cloud_account_id p ≡ false
      → moves_region i.region q ≡ false
      → q.region ≡ p.region
      → ⊥
  unfolding retargets
  stays-absurd i p q moving a r e = let r' = sym (region_of i.region p q e) ∙ r in ground arith

  retarget-Ends :
      (i : UpdatePageInput) (p : Page) (known : Option ℕ)
      → Pages.is_deploying p.status ≡ true
      → retargets i p ≡ true
      → Ends (retarget i p known)
  unfolding retarget
  retarget-Ends i p known busy moving =
      Triple-bind _ _ (account_stage-stays i.cloud_account_id p known busy) (λ r.
        Triple-fact _ (λ k.
          Triple-bind _ _ (region_stage-stays i.region r.0 (rw (k.1.0) busy))
            (λ _. Triple-fact _ (λ stays. absurd (stays-absurd i p r.0 moving k.0 stays k.1.1)))))

  retargets-same :
      (i : UpdatePageInput) (p q : Page)
      → SameTarget p q
      → retargets i p ≡ true
      → retargets i q ≡ true
  unfolding retargets
  retargets-same i p q k moving =
      rw (account_of i.cloud_account_id p q k.account, region_of i.region p q k.region) moving

output-SameTarget :
    (p : Page) (b : Bool) → SameTarget p (if b then record p { output_dir = "dist" } else p)
output-SameTarget p true = record { status = refl; account = refl; region = refl }
output-SameTarget p false = record { status = refl; account = refl; region = refl }

SameTarget-trans : {p q r : Page} → SameTarget p q → SameTarget q r → SameTarget p r
SameTarget-trans h k = record {
  status = k.status ∙ h.status;
  account = k.account ∙ h.account;
  region = k.region ∙ h.region;
}

from_page : {page : Page} (i : UpdatePageInput) (p : Page) → p ≡ page → SameTarget page (edited i p)
unfolding edited settings
from_page i p same =
    let s = settings i p in
    let k = output-SameTarget s (s.build_enabled && is_empty (trim_space s.output_dir)) in
    rw⁻¹ same (record { status = k.status; account = k.account; region = k.region })

abbrev published : UpdatePageInput → Page → Page
published i p = record p { publish_path = given i.publish_path (λ t. t) p.publish_path }

through : (i : UpdatePageInput) (p q : Page) → SameTarget (published i p) q → SameTarget p q
through i p q k = record { status = k.status; account = k.account; region = k.region }

-- An error, with the database as it was.
abbrev pub Refused : {A : Type 0} → World → Exec World A → Type 0
Refused w m = Both (λ _ _. ⊥) (HasDb w.db) (m w)

module _ (db : Db) (id : ℕ) (page : Page) (found : find? (Pages.by_id id) db.pages ≡ some page)
    (busy : Pages.is_deploying page.status ≡ true) where
  loaded :
      Triple (HasDb db) (Pages.get_by_id request id) (λ p w. HasDb db w × (p ≡ page)) (HasDb db)
  unfolding Pages.get_by_id
  loaded =
      Triple-weaken _ (λ w h. h) (λ p w h. let e = h.1 in (h.0, cc)) (λ w h. h)
        (fetch-Same db request (λ db. find? (Pages.by_id id) db.pages))

  status_of : (p : Page) → p ≡ page → Pages.is_deploying p.status ≡ true
  status_of p e = rw e busy

  contradiction : (p : Page) → p ≡ page → Pages.is_deploying p.status ≡ false → ⊥
  contradiction p e idle = let yes = status_of p e in cc

  trigger-Ends : (text : Error → String) (kind : String) → Ends db (trigger text id kind)
  unfolding trigger
  trigger-Ends text kind = Triple-bind _ _ loaded (λ p. Triple-fact _ (λ same.
      Triple-bind _ _ (Triple-throw_if (Pages.is_deploying p.status) _ (λ w h. h))
        (λ _. Triple-fact _ (λ idle. absurd (contradiction p same idle)))))

  delete-Ends : Ends db (delete id)
  unfolding delete
  delete-Ends = Triple-bind _ _ loaded (λ p. Triple-fact _ (λ same.
      Triple-bind _ _ (Triple-throw_if (Pages.is_deploying p.status) _ (λ w h. h))
        (λ _. Triple-fact _ (λ idle. absurd (contradiction p same idle)))))

  update-Ends :
      (env : PageEnv) (i : UpdatePageInput) → retargets i page ≡ true → Ends db (update env id i)
  unfolding update
  update-Ends env i moving = Triple-bind _ _ loaded (λ p. Triple-fact _ (λ same.
      Triple-bind _ _ (reading db _ (check_manager-Reads i.package_manager)) (λ _.
        Triple-bind _ _ (git_stage-SameTarget db i.git_provider_id (edited i p)) (λ (p1, o1).
          Triple-fact _ (λ k1.
            Triple-bind _ _ (domain_stage-SameTarget db env i (published i p1) o1) (λ (p2, o2).
              Triple-fact _ (λ k2.
                let k =
                  SameTarget-trans (from_page i p same)
                    (SameTarget-trans k1 (through i p1 p2 k2)) in
                retarget-Ends db i p2 o2 (rw k.status busy)
                  (retargets-same db i page p2 k moving))))))))

-- A page that is deploying is left alone. Whichever queries fail, whatever the checks of a request find:
-- another `Trigger`, a `Delete`, and an `Update` that asks for another cloud account or region than the
-- page has, all end with an error and change nothing in the database.
pub deploying-LeftAlone :
    (env : PageEnv) (text : Error → String) (id : ℕ) (page : Page) (kind : String)
    (i : UpdatePageInput) (w : World)
    → find? (Pages.by_id id) w.db.pages ≡ some page
    → Pages.is_deploying page.status ≡ true
    → retargets i page ≡ true
    → Refused w (trigger text id kind) × (Refused w (delete id) × Refused w (update env id i))
deploying-LeftAlone env text id page kind i w found busy moving = (
  (trigger-Ends w.db id page found busy text kind).at w refl,
  (
    (delete-Ends w.db id page found busy).at w refl,
    (update-Ends w.db id page found busy env i moving).at w refl,
  ),
)
