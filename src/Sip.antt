-- ===== src/Sip.antt =====
-- core/app/sev/vss/internal/logic/gbs_sip: the handlers of the SIP messages that carry alarms and
-- catalogs. The parser of the messages, the clock and the database service are parameters.
pub mod Alarm
pub mod Catalog
pub mod Tests

-- A handler's response: nil, which is a plain 200, or an error.
pub data Reply : Type 0 where
  accepted : Reply
  failed : Reply
