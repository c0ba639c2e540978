-- ===== src/Record/Envelope.antt =====
-- src/record/author.rs and src/record/record.rs: the record, the proposal, and the two forms that
-- are hashed and signed.
use bellbook.Prelude.{String, Option, List}
use bellbook.Base.Hash.{Hash256, Bytes}
use bellbook.Record.Kind.{Kind, AuthorType}
use bellbook.Record.Refs.{RecordId, Ref}
use bellbook.Record.Evidence.{Evidence}
use bellbook.Record.Payloads.{ActorId, Time}

abbrev pub SpaceId : Type 0
SpaceId = Hash256

abbrev pub ThreadId : Type 0
ThreadId = Hash256

pub record Signature : Type 0 where
  pub key_id : String
  pub sig : Bytes

pub record Author : Type 0 where
  pub id : ActorId
  pub type_ : AuthorType
  pub signature : Option Signature

pub record Record : Type 0 where
  pub id : RecordId
  pub space : SpaceId
  pub thread : ThreadId
  pub time : Time
  pub author : Author
  pub kind : Kind
  pub schema : Hash256
  pub payload : Bytes
  pub refs : List Ref
  pub evidence : Evidence

pub record Proposal : Type 0 where
  pub space : SpaceId
  pub thread : ThreadId
  pub author : Author
  pub kind : Kind
  pub schema : Hash256
  pub payload : Bytes
  pub refs : List Ref

-- Only `id` is left out.
pub record CanonicalIdForm : Type 0 where
  pub space : SpaceId
  pub thread : ThreadId
  pub time : Time
  pub author : Author
  pub kind : Kind
  pub schema : Hash256
  pub payload : Bytes
  pub refs : List Ref
  pub evidence : Evidence

unfoldable pub canonical_id_form : Record → CanonicalIdForm
canonical_id_form r = record {
  space = r.space;
  thread = r.thread;
  time = r.time;
  author = r.author;
  kind = r.kind;
  schema = r.schema;
  payload = r.payload;
  refs = r.refs;
  evidence = r.evidence;
}

pub record CanonicalAuthor : Type 0 where
  pub id : ActorId
  pub type_ : AuthorType

-- `id` and the signature are left out, and the epoch's domain is put around the rest.
pub record SigningForm : Type 0 where
  pub domain : String
  pub space : SpaceId
  pub thread : ThreadId
  pub time : Time
  pub author : CanonicalAuthor
  pub kind : Kind
  pub schema : Hash256
  pub payload : Bytes
  pub refs : List Ref
  pub evidence : Evidence

abbrev pub record_signature_domain : String
record_signature_domain = "bellbook.record-signature.v0.3"

abbrev pub selection_approval_domain : String
selection_approval_domain = "bellbook.selection-approval.v0.3"

unfoldable pub signing_form : Record → SigningForm
signing_form r = record {
  domain = record_signature_domain;
  space = r.space;
  thread = r.thread;
  time = r.time;
  author = record { id = r.author.id; type_ = r.author.type_ };
  kind = r.kind;
  schema = r.schema;
  payload = r.payload;
  refs = r.refs;
  evidence = r.evidence;
}
