-- ===== src/RemoteControl/Models.antt =====
-- crates/remote_control/src/models.rs and error.rs: the data that the hub keeps and reports.
-- Identifiers are opaque numbers; a float is carried as its bit pattern and never computed with.
use roomler.Prelude.{ℕ, Bool, List, Text}

abbrev pub ObjectId : Type 0
ObjectId = ℕ

abbrev pub DateTime : Type 0
DateTime = ℕ

abbrev pub Float32 : Type 0
Float32 = ℕ

pub data OsKind : Type 0 where
  linux macos windows : OsKind

pub record DisplayInfo : Type 0 where
  pub index : ℕ
  pub name : Text
  pub width_px : ℕ
  pub height_px : ℕ
  pub scale : Float32
  pub primary : Bool

pub record AgentCaps : Type 0 where
  pub hw_encoders : List Text
  pub codecs : List Text
  pub has_input_permission : Bool
  pub supports_clipboard : Bool
  pub supports_file_transfer : Bool
  pub max_simultaneous_sessions : ℕ
  pub transports : List Text

pub data SessionPhase : Type 0 where
  pending awaiting_consent negotiating active closed : SessionPhase

pub data EndReason : Type 0 where
  controller_hangup agent_hangup user_denied consent_timeout : EndReason
  agent_disconnect admin_terminated idle_timeout error : EndReason

pub record SessionStats : Type 0 where
  pub bytes_sent : ℕ
  pub bytes_recv : ℕ
  pub peak_fps : Float32
  pub avg_rtt_ms : Float32
  pub keyframe_requests : ℕ
  pub input_events : ℕ

pub data AuditKind : Type 0 where
  session_requested consent_prompted consent_granted consent_denied : AuditKind
  consent_timed_out session_started : AuditKind
  session_ended : EndReason → AuditKind
  clipboard_write_to_host clipboard_read_from_host : ℕ → AuditKind
  file_sent_to_host file_sent_from_host : Text → ℕ → AuditKind
  keyframe_requested : AuditKind
  permissions_changed : ℕ → AuditKind
  watcher_joined watcher_left : ObjectId → AuditKind
  error_event : Text → AuditKind

pub record RemoteAuditEvent : Type 0 where
  pub session_id : ObjectId
  pub agent_id : ObjectId
  pub tenant_id : ObjectId
  pub at : DateTime
  pub event : AuditKind

-- The variants that wrap a database or JSON error arise in code that this crate only calls.
pub data Error : Type 0 where
  agent_offline agent_not_found session_not_found : Text → Error
  bad_phase : Text → Text → Error
  consent_denied_error consent_timeout_error : Error
  permission_denied bad_message : Text → Error
  agent_busy send_failed : Error

pub data Result {ℓ} (A : Type ℓ) : Type ℓ where
  ok : A → Result A
  err : Error → Result A
