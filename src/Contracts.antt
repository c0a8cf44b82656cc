-- ===== src/Contracts.antt =====
-- The mapping to the messages of the platform's contracts: go/pkg/contracts (identity.go, error.go,
-- audit.go). The messages' own code is generated; a message is its fields, a getter on a nil message
-- or on an unset field gives the zero value.
use ting_boundless.Audit.{Event}
use ting_boundless.Base.{
  not, codes, leb, Bool, text_eq, List, ℕ, Option, Text, if◌then◌else◌, some, none, [],
}
use ting_boundless.Base.Results.{is_err, Result, err, ok}
use ting_boundless.Identity.{empty_identity, Identity}
use ting_boundless.Http.{ApiError}

-- `commonv1.IdentityContext`.
pub record IdentityMessage : Type 0 where
  pub request_id : Text
  pub user_id : Text
  pub tenant_id : Text
  pub roles : List Text
  pub scopes : List Text
  pub subject : Text

-- `IdentityToProto`.
unfoldable pub identity_to_proto : Identity → IdentityMessage
identity_to_proto id = record {
  request_id = id.request_id;
  user_id = id.user_id;
  tenant_id = id.tenant_id;
  roles = id.roles;
  scopes = id.scopes;
  subject = id.subject;
}

-- `IdentityFromProto`; `none` is a nil message.
unfoldable pub identity_from_proto : Option IdentityMessage → Identity
identity_from_proto none = empty_identity
identity_from_proto (some m) = record {
  request_id = m.request_id;
  user_id = m.user_id;
  tenant_id = m.tenant_id;
  roles = m.roles;
  scopes = m.scopes;
  subject = m.subject;
}

-- `commonv1.Error`.
pub record ErrorMessage : Type 0 where
  pub code : Text
  pub message : Text
  pub request_id : Text

-- `ErrorToProto`: the message inside an `ErrorResponse`.
unfoldable pub error_to_proto : Option ApiError → Text → Option (Option ErrorMessage)
error_to_proto none rid = none
error_to_proto (some e) rid =
    some (some (record { code = e.code; message = e.message; request_id = rid }))

-- `ErrorFromProto`; a status below 0 is 0.
unfoldable pub error_from_proto : Option (Option ErrorMessage) → ℕ → Option ApiError
error_from_proto (some (some m)) status =
    some
      (record { status = if leb status 0 then 500 else status; code = m.code; message = m.message })
error_from_proto _ status = none

-- What the mapping of events calls of Go's library and of the protobuf runtime: `structpb.NewStruct`
-- and `AsMap`, on the JSON of the data. Nothing is assumed of them: a Struct holds every number as a
-- float64, so what comes back may differ.
pub record Structs : Type 1 where
  pub Struct : Type 0
  pub new_struct : Text → Result Struct
  pub as_map : Struct → Text

module _ (structs : Structs) where
  open structs use {Struct, new_struct, as_map}

  -- `commonv1.AuditEvent`; `none` as the data or the time is a nil message.
  pub record EventMessage : Type 0 where
    pub id : Text
    pub source : Text
    pub type : Text
    pub subject : Text
    pub time : Option ℕ
    pub tenant_id : Text
    pub actor_user_id : Text
    pub details : Option Struct

  -- The data, without those of no member: `len(e.Data) > 0`.
  unfoldable pub members_of : Option Text → Option Text
  members_of none = none
  members_of (some o) = if text_eq o (codes "{}") then none else some o

  unfoldable pub struct_of : Option Text → Result (Option Struct)
  struct_of none = ok none
  struct_of (some o) = elim (new_struct o) [ ok s ↦ ok (some s) | err e ↦ err e ]

  -- The zero time is replaced by the current one.
  unfoldable pub time_or : ℕ → Option ℕ → ℕ
  time_or now none = now
  time_or now (some t) = t

  unfoldable pub message_of : ℕ → Event → Result (Option Struct) → Result EventMessage
  unfolding time_or
  message_of now e (err x) = err x
  message_of now e (ok d) = ok (record {
    id = e.id;
    source = e.source;
    type = e.type;
    subject = e.subject;
    time = some (time_or now e.time);
    tenant_id = e.tenant_id;
    actor_user_id = e.actor_user_id;
    details = d;
  })

  -- `AuditToProto`.
  unfoldable pub audit_to_proto : ℕ → Event → Result EventMessage
  unfolding message_of struct_of members_of
  audit_to_proto now e = message_of now e (struct_of (members_of e.details))

  -- `ValidateAuditEvent`, as whether there is no error.
  unfoldable pub validate_audit_event : ℕ → Event → Bool
  unfolding audit_to_proto
  validate_audit_event now e = not (is_err (audit_to_proto now e))

  unfoldable pub map_of : Option Struct → Option Text
  map_of none = none
  map_of (some s) = some (as_map s)

  -- `AuditFromProto`.
  unfoldable pub audit_from_proto : Option EventMessage → Event
  unfolding map_of
  audit_from_proto none = record {
    id = [];
    source = [];
    type = [];
    subject = [];
    time = none;
    tenant_id = [];
    actor_user_id = [];
    details = none;
  }
  audit_from_proto (some m) = record {
    id = m.id;
    source = m.source;
    type = m.type;
    subject = m.subject;
    time = m.time;
    tenant_id = m.tenant_id;
    actor_user_id = m.actor_user_id;
    details = map_of m.details;
  }
