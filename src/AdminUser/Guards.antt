-- ===== src/AdminUser/Guards.antt =====
-- What has to hold before an administrator's change reaches the repository: `admin_insert_full`,
-- `admin_update_full`, `admin_delete_user` and `admin_suspend_user` of
-- crates/application/src/admin_user.rs.
use kokkeak_api.AdminUser.{
  AdminUserService, actor_of, check_schedule, hashed, admin_insert_full, check_day,
  schedule_missing_times, insert_request, then_check,
}
use kokkeak_api.AdminUser.Types.{
  AdminError, AdminInsertUserFullInput, DaySchedule, WeeklySchedule, AdminInsertUserResult,
  AdminInsertUserRequest,
}
use kokkeak_api.Auth.Types.{RepoResult, repo_ok, repo_err}
use kokkeak_api.Effect.{◌>>=◌, Outcome, Method, good, bad}
use kokkeak_api.Prelude.{
  ℕ, ◌≡◌, refl, none, some, true, inl, inr, String, Option, arith, ◌⊎◌, ◌∙◌, ◌==◌, if◌then◌else◌,
}

-- A working day has its times.
abbrev pub IsTimed : DaySchedule → Type 0
IsTimed d =
    d.is_working ≡ true
    → (start : ℕ) × (end : ℕ) × (d.start_time ≡ some start) × (d.end_time ≡ some end)

abbrev pub AllTimed : WeeklySchedule → Type 0
AllTimed s =
    IsTimed s.monday
    × IsTimed s.tuesday
    × IsTimed s.wednesday
    × IsTimed s.thursday
    × IsTimed s.friday
    × IsTimed s.saturday
    × IsTimed s.sunday

check_day-IsTimed : (label : String) (d : DaySchedule) → check_day label d ≡ good tt → IsTimed d
unfolding check_day
check_day-IsTimed label d h working = by_times d.start_time d.end_time refl refl
  where
    by_times :
        (s e : Option ℕ)
        → d.start_time ≡ s
        → d.end_time ≡ e
        → (start : ℕ) × (end : ℕ) × (d.start_time ≡ some start) × (d.end_time ≡ some end)
    by_times none e hs he = ground arith
    by_times (some t) none hs he = ground arith
    by_times (some t) (some u) hs he = (t, u, hs, he)

checked_first :
    (a b : Outcome String (Unit {0})) → then_check a b ≡ good tt → (a ≡ good tt) × (b ≡ good tt)
checked_first (good _) b h = (refl, h)
checked_first (bad e) b h = cc

schedule-AllTimed : (s : WeeklySchedule) → schedule_missing_times s ≡ good tt → AllTimed s
unfolding schedule_missing_times
schedule-AllTimed s h =
    let (mon, h1) = checked_first _ _ h in
    let (tue, h2) = checked_first _ _ h1 in
    let (wed, h3) = checked_first _ _ h2 in
    let (thu, h4) = checked_first _ _ h3 in
    let (fri, h5) = checked_first _ _ h4 in
    let (sat, h6) = checked_first _ _ h5 in
    let (sun, h7) = checked_first _ _ h6 in
    (
      check_day-IsTimed _ s.monday mon,
      check_day-IsTimed _ s.tuesday tue,
      check_day-IsTimed _ s.wednesday wed,
      check_day-IsTimed _ s.thursday thu,
      check_day-IsTimed _ s.friday fri,
      check_day-IsTimed _ s.saturday sat,
      check_day-IsTimed _ s.sunday sun,
    )

-- What the request to the repository says, field by field: the administrator's user name, the hash in
-- the place of the password, the two statuses as 0 or 1, and all else as it was given.
pub record Asks {D : Type 0} (guid hash : String) (input : AdminInsertUserFullInput D)
    (request : AdminInsertUserRequest D) : Type 0 where
  pub same_actor_user_username_guid : request.actor_user_username_guid ≡ guid
  pub same_user_guid : request.user_guid ≡ input.user_guid
  pub same_first_name : request.first_name ≡ input.first_name
  pub same_last_name : request.last_name ≡ input.last_name
  pub same_id_card : request.id_card ≡ input.id_card
  pub same_tel : request.tel ≡ input.tel
  pub same_email : request.email ≡ input.email
  pub same_gender : request.gender ≡ input.gender
  pub same_country_guid : request.country_guid ≡ input.country_guid
  pub same_province : request.province ≡ input.province
  pub same_district : request.district ≡ input.district
  pub same_sub_district : request.sub_district ≡ input.sub_district
  pub same_village : request.village ≡ input.village
  pub same_post : request.post ≡ input.post
  pub same_description : request.description ≡ input.description
  pub same_is_foreign : request.is_foreign ≡ input.is_foreign
  pub same_is_customer_company : request.is_customer_company ≡ input.is_customer_company
  pub same_is_customer : request.is_customer ≡ input.is_customer
  pub same_is_admin : request.is_admin ≡ input.is_admin
  pub same_is_employee : request.is_employee ≡ input.is_employee
  pub same_is_freelance : request.is_freelance ≡ input.is_freelance
  pub same_status : request.status ≡ (if input.status == 0 then 0 else 1)
  pub same_username : request.username ≡ input.username
  pub same_password_hash : request.password_hash ≡ hash
  pub same_profile_img_path : request.profile_img_path ≡ input.profile_img_path
  pub same_company_guid : request.company_guid ≡ input.company_guid
  pub same_company_name : request.company_name ≡ input.company_name
  pub same_company_tel : request.company_tel ≡ input.company_tel
  pub same_company_type : request.company_type ≡ input.company_type
  pub same_company_status : request.company_status ≡ (if input.company_status == 0 then 0 else 1)
  pub same_department_guid : request.department_guid ≡ input.department_guid
  pub same_department_team_guid : request.department_team_guid ≡ input.department_team_guid
  pub same_position_guid : request.position_guid ≡ input.position_guid
  pub same_position_start_at : request.position_start_at ≡ input.position_start_at
  pub same_salary_amount : request.salary_amount ≡ input.salary_amount
  pub same_salary_currency : request.salary_currency ≡ input.salary_currency
  pub same_schedule : request.schedule ≡ input.schedule
  pub same_bank_name : request.bank_name ≡ input.bank_name
  pub same_bank_code : request.bank_code ≡ input.bank_code
  pub same_bank_account_no : request.bank_account_no ≡ input.bank_account_no
  pub same_bank_account_name : request.bank_account_name ≡ input.bank_account_name
  pub same_bank_book_img_path : request.bank_book_img_path ≡ input.bank_book_img_path
  pub same_id_card_front_path : request.id_card_front_path ≡ input.id_card_front_path
  pub same_id_card_back_path : request.id_card_back_path ≡ input.id_card_back_path
  pub same_proof_of_address_path : request.proof_of_address_path ≡ input.proof_of_address_path
  pub same_source_of_funds_statement_path :
      request.source_of_funds_statement_path ≡ input.source_of_funds_statement_path

insert_request-Asks :
    {D : Type 0} (guid hash : String) (input : AdminInsertUserFullInput D)
    → Asks guid hash input (insert_request guid hash input)
unfolding insert_request
insert_request-Asks guid hash input = record {
  same_actor_user_username_guid = refl;
  same_user_guid = refl;
  same_first_name = refl;
  same_last_name = refl;
  same_id_card = refl;
  same_tel = refl;
  same_email = refl;
  same_gender = refl;
  same_country_guid = refl;
  same_province = refl;
  same_district = refl;
  same_sub_district = refl;
  same_village = refl;
  same_post = refl;
  same_description = refl;
  same_is_foreign = refl;
  same_is_customer_company = refl;
  same_is_customer = refl;
  same_is_admin = refl;
  same_is_employee = refl;
  same_is_freelance = refl;
  same_status = refl;
  same_username = refl;
  same_password_hash = refl;
  same_profile_img_path = refl;
  same_company_guid = refl;
  same_company_name = refl;
  same_company_tel = refl;
  same_company_type = refl;
  same_company_status = refl;
  same_department_guid = refl;
  same_department_team_guid = refl;
  same_position_guid = refl;
  same_position_start_at = refl;
  same_salary_amount = refl;
  same_salary_currency = refl;
  same_schedule = refl;
  same_bank_name = refl;
  same_bank_code = refl;
  same_bank_account_no = refl;
  same_bank_account_name = refl;
  same_bank_book_img_path = refl;
  same_id_card_front_path = refl;
  same_id_card_back_path = refl;
  same_proof_of_address_path = refl;
  same_source_of_funds_statement_path = refl;
}

module _ {W A B : Type 0} where
  -- A step that changes nothing, and then another: the whole is refused with nothing changed, or the
  -- step passed and the whole is the other.
  after_check :
      (m : Method AdminError W A) (f : A → Method AdminError W B) (w : W)
      → (m w).1 ≡ w
      → ((e : AdminError) × ((m >>= f) w ≡ (bad e, w)))
        ⊎ ((a : A) × ((m w).0 ≡ good a) × ((m >>= f) w ≡ f a w))
  after_check m f w same = by_result (m w).0 refl
    where
      by_result :
          (r : Outcome AdminError A)
          → (m w).0 ≡ r
          → ((e : AdminError) × ((m >>= f) w ≡ (bad e, w)))
            ⊎ ((a : A) × ((m w).0 ≡ good a) × ((m >>= f) w ≡ f a w))
      by_result (bad e) h = inl (e, ground arith)
      by_result (good a) h = inr (a, h, ground arith)

module _ {W D Row : Type 0} (sv : AdminUserService W D Row) where
  actor_of-keeps : (actor : ℕ) (w : W) → (actor_of sv actor w).1 ≡ w
  unfolding actor_of
  actor_of-keeps actor w = by_actor (sv.users.find_username_guid_by_user_guid actor w) refl
    where
      by_actor :
          (r : RepoResult (Option String))
          → sv.users.find_username_guid_by_user_guid actor w ≡ r
          → (actor_of sv actor w).1 ≡ w
      by_actor (repo_err e) h = ground arith
      by_actor (repo_ok none) h = ground arith
      by_actor (repo_ok (some g)) h = ground arith

  actor_of-eq-good :
      (actor : ℕ) (w : W) (guid : String)
      → (actor_of sv actor w).0 ≡ good guid
      → sv.users.find_username_guid_by_user_guid actor w ≡ repo_ok (some guid)
  unfolding actor_of
  actor_of-eq-good actor w guid h = by_actor (sv.users.find_username_guid_by_user_guid actor w) refl
    where
      by_actor :
          (r : RepoResult (Option String))
          → sv.users.find_username_guid_by_user_guid actor w ≡ r
          → sv.users.find_username_guid_by_user_guid actor w ≡ repo_ok (some guid)
      by_actor (repo_err e) k = ground arith
      by_actor (repo_ok none) k = ground arith
      by_actor (repo_ok (some g)) k = ground arith

  check_schedule-keeps : (s : WeeklySchedule) (w : W) → (check_schedule sv s w).1 ≡ w
  unfolding check_schedule
  check_schedule-keeps s w = ground arith

  check_schedule-AllTimed :
      (s : WeeklySchedule) (w : W) → (check_schedule sv s w).0 ≡ good tt → AllTimed s
  unfolding check_schedule
  check_schedule-AllTimed s w h = schedule-AllTimed s (ground arith)

  hashed-keeps : (password : String) (w : W) → (hashed sv password w).1 ≡ w
  unfolding hashed
  hashed-keeps password w = ground arith

  hashed-eq-good :
      (password h : String) (w : W) → (hashed sv password w).0 ≡ good h → sv.hash password ≡ good h
  unfolding hashed
  hashed-eq-good password h w ok = ground arith

  -- What the repository is asked to insert, and when.
  abbrev pub Inserted : ℕ → AdminInsertUserFullInput D → W → Type 0
  Inserted actor input w =
      ((e : AdminError) × (admin_insert_full sv actor input w ≡ (bad e, w)))
      ⊎ ((guid : String) × (hash : String) × (sv.users.find_username_guid_by_user_guid actor w
            ≡ repo_ok (some guid))
          × AllTimed input.schedule
          × (sv.hash input.password ≡ good hash)
          × (request : AdminInsertUserRequest D) × Asks guid hash input request
          × (admin_insert_full sv actor input w ≡ sv.users.admin_insert_full request w))

  -- A user is inserted only by an administrator whose user name is known, with times for every working
  -- day, and with the password's hash in place of the password: the repository is asked once, with the
  -- administrator's user name, the hash, the statuses as 0 or 1, and all else as it was given.
  -- Otherwise the administrator gets an error, and nothing has changed.
  pub admin_insert_cases :
      (actor : ℕ) (input : AdminInsertUserFullInput D) (w : W) → Inserted actor input w
  unfolding admin_insert_full
  admin_insert_cases actor input w =
      let ask : String → String → Method AdminError W AdminInsertUserResult =
        λ guid hash. sv.users.admin_insert_full (insert_request guid hash input) in
      let hash_and_ask : String → Method AdminError W AdminInsertUserResult =
        λ guid. hashed sv input.password >>= ask guid in
      let check_and_ask : String → Method AdminError W AdminInsertUserResult =
        λ guid. check_schedule sv input.schedule >>= λ _. hash_and_ask guid in
      elim (after_check (actor_of sv actor) check_and_ask w (actor_of-keeps actor w)) [
        | inl refused ↦ inl refused
        | inr (guid, known, run) ↦
            elim (after_check (check_schedule sv input.schedule) (λ _. hash_and_ask guid) w
              (check_schedule-keeps input.schedule w)) [
                | inl (e, refused) ↦ inl (e, run ∙ refused)
                | inr (_, timed, run') ↦
                    elim (after_check (hashed sv input.password) (ask guid) w
                      (hashed-keeps input.password w)) [
                        | inl (e, refused) ↦ inl (e, run ∙ run' ∙ refused)
                        | inr (hash, ok, run'') ↦ inr (
                          guid,
                          hash,
                          actor_of-eq-good actor w guid known,
                          check_schedule-AllTimed input.schedule w timed,
                          hashed-eq-good input.password hash w ok,
                          insert_request guid hash input,
                          insert_request-Asks guid hash input,
                          run ∙ run' ∙ run'',
                        )
                      ]
              ]
      ]
