-- ===== src/Permission.antt =====
-- Permissions and their codes: `Permission` of crates/domain/src/user.rs.
pub mod Codes
pub mod Checker
mod Tests
use kokkeak_api.Prelude.{String, Option, none, some, str_eq, if◌then◌else◌}

pub data Permission : Type 0 where
  page_dashboard_view page_jobs_view page_finance_view page_invoices_view : Permission
  page_kyc_view page_reports_view page_users_view page_permissions_view : Permission
  page_basic_settings_view page_service_view jobs_create jobs_update : Permission
  jobs_delete jobs_export finance_escrow_release finance_export : Permission
  invoices_create invoices_update invoices_export kyc_approve : Permission
  kyc_reject reports_export users_create users_update : Permission
  users_delete permissions_update basic_settings_update service_create : Permission
  service_update service_delete banner_create banner_update : Permission
  banner_delete companies_create companies_update companies_delete : Permission
  companies_export marketing_create marketing_update marketing_delete : Permission
  marketing_publish marketing_export social_update settings_update : Permission
  setting_view page_warranty_view warranty_create warranty_update : Permission
  warranty_delete page_fee_view fee_create fee_update : Permission
  fee_delete : Permission

unfoldable pub code : Permission → String
code page_dashboard_view = "DASHBOARD_VIEW"
code page_jobs_view = "JOBS_VIEW"
code jobs_create = "JOBS_CREATE"
code jobs_update = "JOBS_UPDATE"
code jobs_delete = "JOBS_DELETE"
code jobs_export = "JOBS_EXPORT"
code page_finance_view = "FINANCE_VIEW"
code finance_escrow_release = "FINANCE_ESCROW_RELEASE"
code finance_export = "FINANCE_EXPORT"
code page_invoices_view = "INVOICES_VIEW"
code invoices_create = "INVOICES_CREATE"
code invoices_update = "INVOICES_UPDATE"
code invoices_export = "INVOICES_EXPORT"
code page_kyc_view = "KYC_VIEW"
code kyc_approve = "KYC_APPROVE"
code kyc_reject = "KYC_REJECT"
code page_reports_view = "REPORTS_VIEW"
code reports_export = "REPORTS_EXPORT"
code page_users_view = "USERS_VIEW"
code users_create = "USERS_CREATE"
code users_update = "USERS_UPDATE"
code users_delete = "USERS_DELETE"
code page_permissions_view = "PERMISSIONS_VIEW"
code permissions_update = "PERMISSIONS_UPDATE"
code page_basic_settings_view = "BASIC_SETTINGS_VIEW"
code basic_settings_update = "BASIC_SETTINGS_UPDATE"
code page_service_view = "SERVICE_VIEW"
code service_create = "SERVICE_CREATE"
code service_update = "SERVICE_UPDATE"
code service_delete = "SERVICE_DELETE"
code banner_create = "BANNER_CREATE"
code banner_update = "BANNER_UPDATE"
code banner_delete = "BANNER_DELETE"
code companies_create = "COMPANIES_CREATE"
code companies_update = "COMPANIES_UPDATE"
code companies_delete = "COMPANIES_DELETE"
code companies_export = "COMPANIES_EXPORT"
code marketing_create = "MARKETING_CREATE"
code marketing_update = "MARKETING_UPDATE"
code marketing_delete = "MARKETING_DELETE"
code marketing_publish = "MARKETING_PUBLISH"
code marketing_export = "MARKETING_EXPORT"
code social_update = "SOCIAL_UPDATE"
code settings_update = "SETTINGS_UPDATE"
code setting_view = "SETTING_VIEW"
code page_warranty_view = "WARRANTY_VIEW"
code warranty_create = "WARRANTY_CREATE"
code warranty_update = "WARRANTY_UPDATE"
code warranty_delete = "WARRANTY_DELETE"
code page_fee_view = "FEE_VIEW"
code fee_create = "FEE_CREATE"
code fee_update = "FEE_UPDATE"
code fee_delete = "FEE_DELETE"

unfoldable pub from_code : String → Option Permission
from_code s =
    if str_eq s "DASHBOARD_VIEW"
    then some page_dashboard_view
    else if str_eq s "JOBS_VIEW"
    then some page_jobs_view
    else if str_eq s "JOBS_CREATE"
    then some jobs_create
    else if str_eq s "JOBS_UPDATE"
    then some jobs_update
    else if str_eq s "JOBS_DELETE"
    then some jobs_delete
    else if str_eq s "JOBS_EXPORT"
    then some jobs_export
    else if str_eq s "FINANCE_VIEW"
    then some page_finance_view
    else if str_eq s "FINANCE_ESCROW_RELEASE"
    then some finance_escrow_release
    else if str_eq s "FINANCE_EXPORT"
    then some finance_export
    else if str_eq s "INVOICES_VIEW"
    then some page_invoices_view
    else if str_eq s "INVOICES_CREATE"
    then some invoices_create
    else if str_eq s "INVOICES_UPDATE"
    then some invoices_update
    else if str_eq s "INVOICES_EXPORT"
    then some invoices_export
    else if str_eq s "KYC_VIEW"
    then some page_kyc_view
    else if str_eq s "KYC_APPROVE"
    then some kyc_approve
    else if str_eq s "KYC_REJECT"
    then some kyc_reject
    else if str_eq s "REPORTS_VIEW"
    then some page_reports_view
    else if str_eq s "REPORTS_EXPORT"
    then some reports_export
    else if str_eq s "USERS_VIEW"
    then some page_users_view
    else if str_eq s "USERS_CREATE"
    then some users_create
    else if str_eq s "USERS_UPDATE"
    then some users_update
    else if str_eq s "USERS_DELETE"
    then some users_delete
    else if str_eq s "PERMISSIONS_VIEW"
    then some page_permissions_view
    else if str_eq s "PERMISSIONS_UPDATE"
    then some permissions_update
    else if str_eq s "BASIC_SETTINGS_VIEW"
    then some page_basic_settings_view
    else if str_eq s "BASIC_SETTINGS_UPDATE"
    then some basic_settings_update
    else if str_eq s "SERVICE_VIEW"
    then some page_service_view
    else if str_eq s "SERVICE_CREATE"
    then some service_create
    else if str_eq s "SERVICE_UPDATE"
    then some service_update
    else if str_eq s "SERVICE_DELETE"
    then some service_delete
    else if str_eq s "BANNER_CREATE"
    then some banner_create
    else if str_eq s "BANNER_UPDATE"
    then some banner_update
    else if str_eq s "BANNER_DELETE"
    then some banner_delete
    else if str_eq s "COMPANIES_CREATE"
    then some companies_create
    else if str_eq s "COMPANIES_UPDATE"
    then some companies_update
    else if str_eq s "COMPANIES_DELETE"
    then some companies_delete
    else if str_eq s "COMPANIES_EXPORT"
    then some companies_export
    else if str_eq s "MARKETING_CREATE"
    then some marketing_create
    else if str_eq s "MARKETING_UPDATE"
    then some marketing_update
    else if str_eq s "MARKETING_DELETE"
    then some marketing_delete
    else if str_eq s "MARKETING_PUBLISH"
    then some marketing_publish
    else if str_eq s "MARKETING_EXPORT"
    then some marketing_export
    else if str_eq s "SOCIAL_UPDATE"
    then some social_update
    else if str_eq s "SETTINGS_UPDATE"
    then some settings_update
    else if str_eq s "SETTING_VIEW"
    then some setting_view
    else if str_eq s "WARRANTY_VIEW"
    then some page_warranty_view
    else if str_eq s "WARRANTY_CREATE"
    then some warranty_create
    else if str_eq s "WARRANTY_UPDATE"
    then some warranty_update
    else if str_eq s "WARRANTY_DELETE"
    then some warranty_delete
    else if str_eq s "FEE_VIEW"
    then some page_fee_view
    else if str_eq s "FEE_CREATE"
    then some fee_create
    else if str_eq s "FEE_UPDATE"
    then some fee_update
    else if str_eq s "FEE_DELETE"
    then some fee_delete
    else none
