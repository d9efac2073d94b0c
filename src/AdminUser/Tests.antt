-- ===== src/AdminUser/Tests.antt =====
-- Tests of crates/application/src/admin_user.rs, at a repository that counts its writes.
use kokkeak_api.AdminUser.{
  AdminUserService, admin_insert_full, actor_of, error, check_schedule, hashed,
  schedule_missing_times, check_day,
}
use kokkeak_api.AdminUser.Types.{
  AdminUsers, AdminInsertUserFullInput, AdminUserListPagingInput, AdminUserListPagingPage,
  DaySchedule, WeeklySchedule, non_negative, negative, AdminInsertUserResult,
}
use kokkeak_api.AdminUser.Guards.{Inserted, admin_insert_cases}
use kokkeak_api.Auth.Types.{repo_ok}
use kokkeak_api.Effect.{good, bad}
use kokkeak_api.Prelude.{
  ◌==◌, ℕ, refl, ◌≡◌, none, some, true, false, [], if◌then◌else◌, ◌∷◌, ◌^◌, ◌+◌,
}

abbrev inserted : AdminInsertUserResult
inserted = record {
  user_guid = "g";
  user_username_guid = "u";
  username = "bo";
  assigned_role_guid = none;
}

abbrev users : AdminUsers ℕ ℕ ℕ
users = record {
  find_username_guid_by_user_guid = λ id w. repo_ok (if id == 1 then some "boss" else none);
  admin_insert_full = λ req w. (good inserted, w + 1);
  admin_update_full = λ req w. (good (record { user_guid = "g" }), w + 1);
  admin_delete_user =
      λ actor user w. (good (record { user_guid = "g"; code = ""; message = "" }), w);
  admin_suspend_user =
      λ actor user w. (good (record { user_guid = "g"; code = ""; message = "" }), w);
  list_users_paging = λ query actor w. repo_ok (record {
    items = query.page_size ∷ [];
    total_count = 1;
    page = non_negative 0;
    page_size = non_negative 0;
  });
}

abbrev service : AdminUserService ℕ ℕ ℕ
service = record { users = users; hash = λ p. good "#"; show = λ e. "" }

abbrev off : DaySchedule
off = record { is_working = false; start_time = none; end_time = none }

abbrev on : DaySchedule
on = record { is_working = true; start_time = some 800; end_time = some 1700 }

abbrev week : WeeklySchedule
week = record {
  monday = on;
  tuesday = on;
  wednesday = off;
  thursday = on;
  friday = on;
  saturday = off;
  sunday = off;
}

abbrev input : AdminInsertUserFullInput ℕ
input = record {
  user_guid = none;
  first_name = "x";
  last_name = "x";
  id_card = none;
  tel = none;
  email = "x";
  gender = none;
  country_guid = none;
  province = none;
  district = none;
  sub_district = none;
  village = none;
  post = none;
  description = none;
  is_foreign = false;
  is_customer_company = false;
  is_customer = false;
  is_admin = false;
  is_employee = false;
  is_freelance = false;
  status = 1;
  username = "x";
  password = "x";
  profile_img_path = none;
  company_guid = none;
  company_name = none;
  company_tel = none;
  company_type = none;
  company_status = 1;
  department_guid = none;
  department_team_guid = none;
  position_guid = none;
  position_start_at = none;
  salary_amount = none;
  salary_currency = none;
  schedule = week;
  bank_name = none;
  bank_code = none;
  bank_account_no = none;
  bank_account_name = none;
  bank_book_img_path = none;
  id_card_front_path = none;
  id_card_back_path = none;
  proof_of_address_path = none;
  source_of_funds_statement_path = none;
}

insert_run : admin_insert_full service 1 input 0 ≡ (good inserted, 1)
unfolding admin_insert_full actor_of check_schedule hashed schedule_missing_times check_day
insert_run = refl

insert_without_actor :
    admin_insert_full service 2 input 0
    ≡ (bad (error "actor_not_found" "actor user_username_guid not found or inactive"), 0)
unfolding admin_insert_full actor_of
insert_without_actor = refl

admin_insert_cases_example : Inserted service 1 input 0
admin_insert_cases_example = admin_insert_cases service 1 input 0

abbrev query : AdminUserListPagingInput
query = record {
  keyword = " bo ";
  user_status = none;
  user_is_customer = none;
  user_is_employee = none;
  user_is_freelance = none;
  department_guid = some " ";
  department_team_guid = none;
  position_guid = none;
  page = 2 ^ 31;
  page_size = 500;
}

abbrev shown : AdminUserListPagingPage ℕ
shown = record {
  items = 100 ∷ [];
  total_count = 1;
  page = negative (2 ^ 31);
  page_size = non_negative 100;
}
