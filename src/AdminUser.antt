-- ===== src/AdminUser.antt =====
-- The administration of users: crates/application/src/admin_user.rs. The display text of an error
-- that the code passes on is the parameter `show`, and the hasher is a parameter.
pub mod Types
pub mod Guards
pub mod Listing
mod Tests
use Prim.Native.String
use kokkeak_api.AdminUser.Types.{
  DaySchedule, WeeklySchedule, AdminInsertUserFullInput, AdminUpdateUserFullInput,
  AdminInsertUserRequest, AdminUpdateUserRequest, AdminInsertUserResult, AdminUpdateUserResult,
  AdminDeleteUserResult, AdminUserListPagingInput, AdminUserListPagingPage, AdminError, AdminUsers,
  I32, non_negative, negative,
}
use kokkeak_api.Auth.Types.{RepoError, RepoResult, repo_ok, repo_err}
use kokkeak_api.Effect.{Outcome, Method, good, bad, ◌>>=◌, ◌>>◌, pure, raise, some_or}
use kokkeak_api.Prelude.{
  ℕ, none, some, true, false, if◌then◌else◌, Option, ◌==◌, ltb, String, ◌^◌, Bool, ◌&&◌, max, ◌-◌,
  ◌||◌, min,
}
use kokkeak_api.Text.{trim, is_empty}

pub record AdminUserService (W D Row : Type 0) : Type 0 where
  pub users : AdminUsers W D Row
  pub hash : String → Outcome String String
  pub show : RepoError → String

abbrev pub error : String → String → AdminError
error code message = record { code = code; message = message }

abbrev missing : Option ℕ → Bool
missing none = true
missing (some t) = false

-- `check_day`: the label of a working day without its times.
pub check_day : String → DaySchedule → Outcome String (Unit {0})
check_day label d =
    if d.is_working && (missing d.start_time || missing d.end_time) then bad label else good tt

abbrev then_check :
    Outcome String (Unit {0}) → Outcome String (Unit {0}) → Outcome String (Unit {0})
then_check (bad day) next = bad day
then_check (good _) next = next

pub schedule_missing_times : WeeklySchedule → Outcome String (Unit {0})
schedule_missing_times s = then_check (check_day "monday" s.monday) (
    then_check (check_day "tuesday" s.tuesday) (
      then_check (check_day "wednesday" s.wednesday) (
        then_check (check_day "thursday" s.thursday) (
          then_check (check_day "friday" s.friday) (
            then_check (check_day "saturday" s.saturday)
              (then_check (check_day "sunday" s.sunday) (good tt)))))))

-- A status is 0 or 1.
abbrev pub flag : ℕ → ℕ
flag n = if n == 0 then 0 else 1

pub insert_request :
    {D : Type 0} → String → String → AdminInsertUserFullInput D → AdminInsertUserRequest D
insert_request actor password_hash input = record {
  actor_user_username_guid = actor;
  user_guid = input.user_guid;
  first_name = input.first_name;
  last_name = input.last_name;
  id_card = input.id_card;
  tel = input.tel;
  email = input.email;
  gender = input.gender;
  country_guid = input.country_guid;
  province = input.province;
  district = input.district;
  sub_district = input.sub_district;
  village = input.village;
  post = input.post;
  description = input.description;
  is_foreign = input.is_foreign;
  is_customer_company = input.is_customer_company;
  is_customer = input.is_customer;
  is_admin = input.is_admin;
  is_employee = input.is_employee;
  is_freelance = input.is_freelance;
  status = flag input.status;
  username = input.username;
  password_hash = password_hash;
  profile_img_path = input.profile_img_path;
  company_guid = input.company_guid;
  company_name = input.company_name;
  company_tel = input.company_tel;
  company_type = input.company_type;
  company_status = flag input.company_status;
  department_guid = input.department_guid;
  department_team_guid = input.department_team_guid;
  position_guid = input.position_guid;
  position_start_at = input.position_start_at;
  salary_amount = input.salary_amount;
  salary_currency = input.salary_currency;
  schedule = input.schedule;
  bank_name = input.bank_name;
  bank_code = input.bank_code;
  bank_account_no = input.bank_account_no;
  bank_account_name = input.bank_account_name;
  bank_book_img_path = input.bank_book_img_path;
  id_card_front_path = input.id_card_front_path;
  id_card_back_path = input.id_card_back_path;
  proof_of_address_path = input.proof_of_address_path;
  source_of_funds_statement_path = input.source_of_funds_statement_path;
}

pub update_request : {D : Type 0} → String → AdminUpdateUserFullInput D → AdminUpdateUserRequest D
update_request actor input = record {
  actor_user_username_guid = actor;
  user_guid = input.user_guid;
  first_name = input.first_name;
  last_name = input.last_name;
  id_card = input.id_card;
  tel = input.tel;
  email = input.email;
  gender = input.gender;
  country_guid = input.country_guid;
  province = input.province;
  district = input.district;
  sub_district = input.sub_district;
  village = input.village;
  post = input.post;
  description = input.description;
  is_foreign = input.is_foreign;
  is_customer_company = input.is_customer_company;
  is_customer = input.is_customer;
  is_admin = input.is_admin;
  is_employee = input.is_employee;
  is_freelance = input.is_freelance;
  status = flag input.status;
  username = input.username;
  profile_img_path = input.profile_img_path;
  company_guid = input.company_guid;
  company_name = input.company_name;
  company_tel = input.company_tel;
  company_type = input.company_type;
  company_status = flag input.company_status;
  department_guid = input.department_guid;
  department_team_guid = input.department_team_guid;
  position_guid = input.position_guid;
  position_start_at = input.position_start_at;
  salary_amount = input.salary_amount;
  salary_currency = input.salary_currency;
  schedule = input.schedule;
  bank_name = input.bank_name;
  bank_code = input.bank_code;
  bank_account_no = input.bank_account_no;
  bank_account_name = input.bank_account_name;
  bank_book_img_path = input.bank_book_img_path;
  id_card_front_path = input.id_card_front_path;
  id_card_back_path = input.id_card_back_path;
  proof_of_address_path = input.proof_of_address_path;
  source_of_funds_statement_path = input.source_of_funds_statement_path;
}

-- `s.map(|v| v.trim().to_string()).filter(|v| !v.is_empty())`
pub trim_to_none : Option String → Option String
trim_to_none none = none
trim_to_none (some s) = let t = trim s in if is_empty t then none else some t

pub normalized : AdminUserListPagingInput → AdminUserListPagingInput
normalized input = record input {
  keyword = trim input.keyword;
  department_guid = trim_to_none input.department_guid;
  department_team_guid = trim_to_none input.department_team_guid;
  position_guid = trim_to_none input.position_guid;
  page = max input.page 1;
  page_size = min (max input.page_size 1) 100;
}

-- `as i32` on a `u32`.
pub as_i32 : ℕ → I32
as_i32 n = if ltb n (2 ^ 31) then non_negative n else negative (2 ^ 32 - n)

module _ {W D Row : Type 0} (sv : AdminUserService W D Row) where
  -- The user name of the administrator who acts, without which nothing is done.
  pub actor_of : ℕ → Method AdminError W String
  actor_of actor w = elim (sv.users.find_username_guid_by_user_guid actor w) [
    | repo_err e ↦ (bad (error "internal" (String.◌++◌ "actor lookup: " (sv.show e))), w)
    | repo_ok none ↦
        (bad (error "actor_not_found" "actor user_username_guid not found or inactive"), w)
    | repo_ok (some guid) ↦ (good guid, w)
  ]

  pub check_schedule : WeeklySchedule → Method AdminError W (Unit {0})
  check_schedule s w = elim (schedule_missing_times s) [
    | good _ ↦ (good tt, w)
    | bad day ↦ (
      bad (
          error "work_time_required"
            (String.◌++◌ "working day must have start_time and end_time (" (String.◌++◌ day ")"))),
      w,
    )
  ]

  pub hashed : String → Method AdminError W String
  hashed password w = elim (sv.hash password) [
    | good h ↦ (good h, w)
    | bad e ↦ (bad (error "internal" (String.◌++◌ "password hashing failed: " e)), w)
  ]

  pub admin_insert_full : ℕ → AdminInsertUserFullInput D → Method AdminError W AdminInsertUserResult
  admin_insert_full actor_user_guid input = do
    actor ← actor_of actor_user_guid
    check_schedule input.schedule
    password_hash ← hashed input.password
    sv.users.admin_insert_full (insert_request actor password_hash input)

  pub admin_update_full : ℕ → AdminUpdateUserFullInput D → Method AdminError W AdminUpdateUserResult
  admin_update_full actor_user_guid input = do
    actor ← actor_of actor_user_guid
    check_schedule input.schedule
    sv.users.admin_update_full (update_request actor input)

  pub admin_delete_user : ℕ → String → Method AdminError W AdminDeleteUserResult
  admin_delete_user actor_user_guid user_guid = do
    actor ← actor_of actor_user_guid
    sv.users.admin_delete_user actor user_guid

  pub admin_suspend_user : ℕ → String → Method AdminError W AdminDeleteUserResult
  admin_suspend_user actor_user_guid user_guid = do
    actor ← actor_of actor_user_guid
    sv.users.admin_suspend_user actor user_guid

  pub list_users_paging :
      ℕ → AdminUserListPagingInput → W → RepoResult (AdminUserListPagingPage Row)
  list_users_paging actor input w = elim (sv.users.list_users_paging (normalized input) actor w) [
    | repo_err e ↦ repo_err e
    | repo_ok page ↦ repo_ok (record page {
      page = as_i32 (normalized input).page;
      page_size = as_i32 (normalized input).page_size;
    })
  ]
