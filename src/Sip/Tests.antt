-- ===== src/Sip/Tests.antt =====
-- The theorems of Sip at an alarm.
use skeyevss_backend_service.Prelude.{ℕ, ◌≡◌, ◌≢◌, Option, none, some, [], arith, if◌then◌else◌}
use skeyevss_backend_service.Text.{Text, bytes}
use skeyevss_backend_service.Sip.Alarm.{alarm_type_of, kind_of, kind_of-alarm_type_of, is_dated}
use skeyevss_backend_service.Sip.Alarm

code_7 : alarm_type_of 5 2 ≢ 0
unfolding alarm_type_of
code_7 h = ground (arith, h)

kind_of-alarm_type_of_example : kind_of (alarm_type_of 5 2) ≡ (5, 2)
kind_of-alarm_type_of_example = kind_of-alarm_type_of 5 2 code_7

abbrev moved : Alarm.Message
moved = record {
  device_id = bytes "34020000001320000001";
  alarm_method = 5;
  alarm_priority = 1;
  alarm_time = [];
  alarm_description = [];
  longitude = [];
  latitude = [];
  info = some (record { alarm_type = 2; event_type = none });
}

-- A clock that reads the texts that begin with a digit.
abbrev clock : Text → Text → Option ℕ
clock layout value = if is_dated value then some 1700000000000 else none
