-- ===== src/Selectors.antt =====
-- bluewave/selectors.py: how the elements of BlueWeb are found, and which are never touched.
use blue_waving.Base.{String, Bool, ◌&&◌, List, [], ◌∷◌, str_eq, any}

pub record Selector : Type 0 where
  pub by : String
  pub value : String
  pub description : String

-- `==` of the frozen dataclass
unfoldable pub same_selector : Selector → Selector → Bool
same_selector s t =
    str_eq s.by t.by && (str_eq s.value t.value && str_eq s.description t.description)

abbrev pub login_username : Selector
login_username = record {
  by = "id";
  value = "tbUserName";
  description = "User Name input on the BlueWeb login form";
}

abbrev pub login_password : Selector
login_password = record {
  by = "id";
  value = "tbPassword";
  description = "Password input on the BlueWeb login form";
}

abbrev pub login_submit : Selector
login_submit = record {
  by = "xpath";
  value =
      "//*[@id='btnLogin' or @id='Login' or @id='btnSubmit'] | //button[normalize-space()='Login'] | //input[(@type='submit' or @type='button' or @type='image')         and (@value='Login' or normalize-space(@value)='Login'              or @alt='Login')] | //a[normalize-space()='Login' and (@onclick or @href)]";
  description = "Login submit control (best-guess; Enter-key fallback in login.py)";
}

abbrev pub main_menu_reports : Selector
main_menu_reports = record {
  by = "id";
  value = "btnReports_quicklinks";
  description =
      "Reports button (Quick Links bar) — present on the main menu and persists across post-login pages";
}

abbrev pub report_type_dropdown : Selector
report_type_dropdown = record {
  by = "id";
  value = "ctl00_ContentPlaceHolder1_ddlReportType";
  description = "Choose Report dropdown on the Reports page";
}

abbrev pub start_date_input : Selector
start_date_input = record {
  by = "id";
  value = "txtStartDate";
  description = "Start Date text input on the Reports page (mm/dd/yyyy)";
}

abbrev pub end_date_input : Selector
end_date_input = record {
  by = "id";
  value = "txtEndDate";
  description = "End Date text input on the Reports page (mm/dd/yyyy)";
}

abbrev pub get_report_button : Selector
get_report_button = record {
  by = "id";
  value = "ctl00_ContentPlaceHolder1_btnGetReport";
  description = "Get Report submit button";
}

abbrev pub csv_export_button : Selector
csv_export_button = record {
  by = "xpath";
  value =
      "//*[@id='tblReportResults_wrapper']/div[1]/button[2] | //*[@id='tblReportResults_wrapper']//button[normalize-space()='CSV'] | //button[normalize-space()='CSV']";
  description = "CSV export button on the DataTables results toolbar";
}

abbrev pub report_results_first_row : Selector
report_results_first_row = record {
  by = "xpath";
  value = "//*[@id='tblReportResults']/tbody/tr[1]";
  description =
      "First row of the results table — present whether the report has data or shows the 'No data' indicator (distinguish via REPORT_NO_RESULTS_INDICATOR)";
}

abbrev pub report_no_results_indicator : Selector
report_no_results_indicator = record {
  by = "xpath";
  value =
      "//*[@id='tblReportResults']//td[contains(@class,'dataTables_empty')] | //*[@id='tblReportResults']//td[contains(normalize-space(.),'No data available')] | //*[@id='tblReportResults']//td[contains(normalize-space(.),'No matching records')]";
  description = "DataTables 'No data available' indicator inside the results table";
}

abbrev pub deny_emergency_lockdown_text : Selector
deny_emergency_lockdown_text = record {
  by = "xpath";
  value = "//*[contains(normalize-space(.), 'Emergency Lockdown')]";
  description = "Red EMERGENCY LOCKDOWN button on the main menu — read-only worker";
}

abbrev pub deny_emergency_lockdown_id : Selector
deny_emergency_lockdown_id = record {
  by = "xpath";
  value =
      "//*[@id='emergency-lockdown' or contains(@id,'lockdown') or contains(@class,'lockdown')]";
  description = "Defensive secondary selector for Emergency Lockdown (id/class variant)";
}

abbrev pub denylist : List Selector
denylist = deny_emergency_lockdown_text ∷ deny_emergency_lockdown_id ∷ []

-- `sel in DENYLIST`
unfoldable pub is_denied : Selector → Bool
unfolding same_selector
is_denied sel = any (same_selector sel) denylist
