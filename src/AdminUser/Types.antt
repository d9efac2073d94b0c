-- ===== src/AdminUser/Types.antt =====
-- The data of the administration of users: crates/domain/src/admin_user.rs, the inputs of
-- crates/application/src/admin_user.rs, and what of the port of crates/domain/src/traits/user.rs the
-- service calls. `D` is the decimal number type of the crate rust_decimal; a time is a number; an
-- `i32` that the client gives is a number that is not negative. The three error types of the source,
-- which have the same fields, are `AdminError`.
use kokkeak_api.Auth.Types.{RepoResult}
use kokkeak_api.Effect.{Outcome}
use kokkeak_api.Prelude.{ℕ, String, Bool, Option, List}

pub record DaySchedule : Type 0 where
  pub is_working : Bool
  pub start_time : Option ℕ
  pub end_time : Option ℕ

pub record WeeklySchedule : Type 0 where
  pub monday : DaySchedule
  pub tuesday : DaySchedule
  pub wednesday : DaySchedule
  pub thursday : DaySchedule
  pub friday : DaySchedule
  pub saturday : DaySchedule
  pub sunday : DaySchedule

pub record AdminInsertUserFullInput (D : Type 0) : Type 0 where
  pub user_guid : Option String
  pub first_name : String
  pub last_name : String
  pub id_card : Option String
  pub tel : Option String
  pub email : String
  pub gender : Option String
  pub country_guid : Option String
  pub province : Option String
  pub district : Option String
  pub sub_district : Option String
  pub village : Option String
  pub post : Option String
  pub description : Option String
  pub is_foreign : Bool
  pub is_customer_company : Bool
  pub is_customer : Bool
  pub is_admin : Bool
  pub is_employee : Bool
  pub is_freelance : Bool
  pub status : ℕ
  pub username : String
  pub password : String
  pub profile_img_path : Option String
  pub company_guid : Option String
  pub company_name : Option String
  pub company_tel : Option String
  pub company_type : Option ℕ
  pub company_status : ℕ
  pub department_guid : Option String
  pub department_team_guid : Option String
  pub position_guid : Option String
  pub position_start_at : Option ℕ
  pub salary_amount : Option D
  pub salary_currency : Option String
  pub schedule : WeeklySchedule
  pub bank_name : Option String
  pub bank_code : Option String
  pub bank_account_no : Option String
  pub bank_account_name : Option String
  pub bank_book_img_path : Option String
  pub id_card_front_path : Option String
  pub id_card_back_path : Option String
  pub proof_of_address_path : Option String
  pub source_of_funds_statement_path : Option String

pub record AdminUpdateUserFullInput (D : Type 0) : Type 0 where
  pub user_guid : String
  pub first_name : String
  pub last_name : String
  pub id_card : Option String
  pub tel : Option String
  pub email : String
  pub gender : Option String
  pub country_guid : Option String
  pub province : Option String
  pub district : Option String
  pub sub_district : Option String
  pub village : Option String
  pub post : Option String
  pub description : Option String
  pub is_foreign : Bool
  pub is_customer_company : Bool
  pub is_customer : Bool
  pub is_admin : Bool
  pub is_employee : Bool
  pub is_freelance : Bool
  pub status : ℕ
  pub username : String
  pub profile_img_path : Option String
  pub company_guid : Option String
  pub company_name : Option String
  pub company_tel : Option String
  pub company_type : Option ℕ
  pub company_status : ℕ
  pub department_guid : Option String
  pub department_team_guid : Option String
  pub position_guid : Option String
  pub position_start_at : Option ℕ
  pub salary_amount : Option D
  pub salary_currency : Option String
  pub schedule : WeeklySchedule
  pub bank_name : Option String
  pub bank_code : Option String
  pub bank_account_no : Option String
  pub bank_account_name : Option String
  pub bank_book_img_path : Option String
  pub id_card_front_path : Option String
  pub id_card_back_path : Option String
  pub proof_of_address_path : Option String
  pub source_of_funds_statement_path : Option String

pub record AdminInsertUserRequest (D : Type 0) : Type 0 where
  pub actor_user_username_guid : String
  pub user_guid : Option String
  pub first_name : String
  pub last_name : String
  pub id_card : Option String
  pub tel : Option String
  pub email : String
  pub gender : Option String
  pub country_guid : Option String
  pub province : Option String
  pub district : Option String
  pub sub_district : Option String
  pub village : Option String
  pub post : Option String
  pub description : Option String
  pub is_foreign : Bool
  pub is_customer_company : Bool
  pub is_customer : Bool
  pub is_admin : Bool
  pub is_employee : Bool
  pub is_freelance : Bool
  pub status : ℕ
  pub username : String
  pub password_hash : String
  pub profile_img_path : Option String
  pub company_guid : Option String
  pub company_name : Option String
  pub company_tel : Option String
  pub company_type : Option ℕ
  pub company_status : ℕ
  pub department_guid : Option String
  pub department_team_guid : Option String
  pub position_guid : Option String
  pub position_start_at : Option ℕ
  pub salary_amount : Option D
  pub salary_currency : Option String
  pub schedule : WeeklySchedule
  pub bank_name : Option String
  pub bank_code : Option String
  pub bank_account_no : Option String
  pub bank_account_name : Option String
  pub bank_book_img_path : Option String
  pub id_card_front_path : Option String
  pub id_card_back_path : Option String
  pub proof_of_address_path : Option String
  pub source_of_funds_statement_path : Option String

pub record AdminUpdateUserRequest (D : Type 0) : Type 0 where
  pub actor_user_username_guid : String
  pub user_guid : String
  pub first_name : String
  pub last_name : String
  pub id_card : Option String
  pub tel : Option String
  pub email : String
  pub gender : Option String
  pub country_guid : Option String
  pub province : Option String
  pub district : Option String
  pub sub_district : Option String
  pub village : Option String
  pub post : Option String
  pub description : Option String
  pub is_foreign : Bool
  pub is_customer_company : Bool
  pub is_customer : Bool
  pub is_admin : Bool
  pub is_employee : Bool
  pub is_freelance : Bool
  pub status : ℕ
  pub username : String
  pub profile_img_path : Option String
  pub company_guid : Option String
  pub company_name : Option String
  pub company_tel : Option String
  pub company_type : Option ℕ
  pub company_status : ℕ
  pub department_guid : Option String
  pub department_team_guid : Option String
  pub position_guid : Option String
  pub position_start_at : Option ℕ
  pub salary_amount : Option D
  pub salary_currency : Option String
  pub schedule : WeeklySchedule
  pub bank_name : Option String
  pub bank_code : Option String
  pub bank_account_no : Option String
  pub bank_account_name : Option String
  pub bank_book_img_path : Option String
  pub id_card_front_path : Option String
  pub id_card_back_path : Option String
  pub proof_of_address_path : Option String
  pub source_of_funds_statement_path : Option String

pub record AdminInsertUserResult : Type 0 where
  pub user_guid : String
  pub user_username_guid : String
  pub username : String
  pub assigned_role_guid : Option String

pub record AdminUpdateUserResult : Type 0 where
  pub user_guid : String

pub record AdminDeleteUserResult : Type 0 where
  pub user_guid : String
  pub code : String
  pub message : String

pub record AdminUserListPagingInput : Type 0 where
  pub keyword : String
  pub user_status : Option ℕ
  pub user_is_customer : Option Bool
  pub user_is_employee : Option Bool
  pub user_is_freelance : Option Bool
  pub department_guid : Option String
  pub department_team_guid : Option String
  pub position_guid : Option String
  pub page : ℕ
  pub page_size : ℕ

-- What the service reads of a row goes unchanged to the client: a row is of any type `Row`.
pub data I32 : Type 0 where
  non_negative negative : ℕ → I32

pub record AdminUserListPagingPage (Row : Type 0) : Type 0 where
  pub items : List Row
  pub total_count : ℕ
  pub page : I32
  pub page_size : I32

pub record AdminError : Type 0 where
  pub code : String
  pub message : String

-- The repository, over the state `W` of what stands behind it.
pub record AdminUsers (W D Row : Type 0) : Type 0 where
  pub find_username_guid_by_user_guid : ℕ → W → RepoResult (Option String)
  pub admin_insert_full :
      AdminInsertUserRequest D → W → Outcome AdminError AdminInsertUserResult × W
  pub admin_update_full :
      AdminUpdateUserRequest D → W → Outcome AdminError AdminUpdateUserResult × W
  pub admin_delete_user : String → String → W → Outcome AdminError AdminDeleteUserResult × W
  pub admin_suspend_user : String → String → W → Outcome AdminError AdminDeleteUserResult × W
  pub list_users_paging :
      AdminUserListPagingInput → ℕ → W → RepoResult (AdminUserListPagingPage Row)
