-- ===== src/Tests/Delivered.antt =====
-- The outbox with one row of one event, a row whose payload does not decode, and a job's effect.
use mathlib.Core.List.{Memᴰ}
use ting_boundless.Worker.Effects.Laws.{
  HasUniqueJobs, Keeps, IsBusiness, HasEffect, handle_delivery-Keeps,
}
use ting_boundless.Worker.Effects.{Effects, record_effect}
use ting_boundless.Worker.{Job, Delivery, handle_delivery, handle_job, parse_job, acked}
use ting_boundless.Tests.Fixtures.{texts_compute}
use ting_boundless.Outbox.Laws.{Runs, exactly_once, dispatched, enqueued, start, HasUniqueIds}
use ting_boundless.Outbox.{
  event_decoded, some_object, member_of, event_of, oldest_first, batch, dispatch_batch,
  row_to_event, dispatch_once, System, OutboxRow, is_published, ingested, post, pass, marked, mark,
  publish_event, publish_row, publish_all, or_first,
}
use ting_boundless.Audit.{
  find_event, as_row, store_event, insert_unless, posted, ingest, emit, read_body, take_in, insert,
  persisted, status_of, body_limit, Event, Codec,
}
use ting_boundless.Base.{
  keep, subst, any, none, sort_by, reversed, sym, ap, arith, take, Bool-cases, ◌∙◌, ◌∷◌, ◌⊎◌, ◌≡◌,
  refl, inr, inl, insert_by, text_eq, Text, ℕ_discrete, codes, if◌then◌else◌, true, some, [],
}
use ting_boundless.Base.Results.{is_err, lost, Result, failure, err, ok}
use ting_boundless.Outbox.Delivery.{dispatch_once_drains, dispatch_once_publishes, IsAcceptable}
use ting_boundless.Outbox.Starvation.{rounds-IsSame, rounds, IsSame}
use ting_boundless.Outbox.Rounds.{dispatch_once-Leads}

abbrev made : Event
made = record {
  id = codes "i";
  source = codes "business-service";
  type = codes "t";
  subject = [];
  time = some 5;
  tenant_id = [];
  actor_user_id = [];
  details = some (codes "{}");
}

unfoldable Event-discrete : Discrete Event
Event-discrete = hlevel ℕ_discrete

-- A codec that knows one event.
encode_by : {P : Type 0} → Dec P → Text
encode_by (Dec.yes p) = codes "E"
encode_by (Dec.no n) = []

encode_made : Event → Text
unfolding Event-discrete encode_by
encode_made e = encode_by (Event-discrete e made)

decode_made : Text → Result Event
decode_made raw = if text_eq raw (codes "E") then ok made else err (failure [])

abbrev codec : Codec
codec = record {
  encode = encode_made;
  decode = decode_made;
  object = λ raw. err (failure []);
  member = λ o key. [];
  validates = λ e. true;
}

encode_cases : {P : Type 0} (d : Dec P) → P ⊎ (encode_by d ≡ [])
unfolding encode_by
encode_cases (Dec.yes p) = inl p
encode_cases (Dec.no n) = inr refl

decode_lem : (t : Text) (e : Event) → decode_made t ≡ ok e → e ≡ made
unfolding decode_made
decode_lem t e h = elim (Bool-cases (text_eq t (codes "E"))) [
  | inl b ↦ ground (arith, b, h)
  | inr b ↦ absurd (ground (arith, b, h))
]

decodes :
    (ev e : Event) → codec.decode (take body_limit (codec.encode ev)) ≡ ok e → as_row e ≡ as_row ev
unfolding encode_made decode_made text_eq codes
decodes ev e h = elim (encode_cases (Event-discrete ev made)) [
  | inl p ↦ ap as_row (decode_lem (take body_limit (codec.encode ev)) e h ∙ sym p)
  | inr n ↦ absurd (ground (arith, ap (λ t. decode_made (take body_limit t)) n, h))
]

abbrev job_row : OutboxRow
job_row = record { id = codes "i"; event_type = codes "t"; payload = []; created_at = 5 }

abbrev idle : System
idle = record { rows = []; published = []; events = []; turns = [] }

abbrev waiting : System
waiting = record { rows = job_row ∷ []; published = []; events = []; turns = [] }

abbrev delivered : System
delivered = (dispatch_once codec waiting).1

delivery_computes : Unit {0}
unfolding texts_compute dispatch_once dispatch_batch batch oldest_first reversed sort_by insert_by
    is_published pass publish_all publish_row publish_event row_to_event event_of member_of
    some_object emit post posted ingested ingest read_body take_in persisted insert store_event
    find_event as_row insert_unless status_of marked mark or_first encode_made encode_by decode_made
    Event-discrete event_decoded
delivery_computes = tt

encode_yes : {P : Type 0} (d : Dec P) → P → encode_by d ≡ codes "E"
unfolding encode_by
encode_yes (Dec.yes p) q = refl
encode_yes (Dec.no n) q = absurd (n q)

made_decoded : codec.decode (take body_limit (codec.encode made)) ≡ ok made
unfolding encode_made decode_made text_eq codes
made_decoded =
    ap (λ t. decode_made (take body_limit t)) (encode_yes (Event-discrete made made) refl)

made_of_row : row_to_event codec job_row ≡ ok made
unfolding delivery_computes
made_of_row = refl

abbrev acceptable : IsAcceptable codec job_row
unfolding codes
acceptable = record {
  event = made;
  received = made;
  is_event = made_of_row;
  is_complete = refl;
  is_decoded = made_decoded;
  is_received_complete = refl;
  is_valid = refl;
}

job_in_batch : Memᴰ job_row (batch waiting)
unfolding texts_compute batch oldest_first reversed sort_by insert_by is_published
job_in_batch = Memᴰ.head refl

job_published : is_published delivered job_row ≡ true
job_published = dispatch_once_publishes codec waiting job_row refl acceptable job_in_batch

job_stays : Memᴰ job_row delivered.rows
job_stays =
    subst (Memᴰ job_row) (sym (dispatch_once-Leads codec decodes waiting).0) (Memᴰ.head refl)

abbrev delivered_runs : Runs codec delivered
unfolding find_event
delivered_runs = dispatched [] (enqueued job_row (λ q m. elim m [ ]) refl (start []))

exactly_once_example :
    HasUniqueIds delivered.events
    × ((ev : Event) × (row_to_event codec job_row ≡ ok ev)
        × (find_event (codes "i") delivered.events ≡ some (as_row ev)))
exactly_once_example =
    exactly_once codec decodes delivered job_row delivered_runs job_stays job_published

dispatch_once_drains_example : is_published (dispatch_once codec waiting).1 job_row ≡ true
unfolding keep is_published any
dispatch_once_drains_example =
    dispatch_once_drains codec waiting job_row refl (omega arith) (Memᴰ.head refl) acceptable

-- A row whose payload does not decode.
abbrev bad_row : OutboxRow
bad_row = record { id = codes "b"; event_type = codes "t"; payload = codes "{"; created_at = 1 }

abbrev stuck : System
stuck = record { rows = bad_row ∷ []; published = []; events = []; turns = [] }

bad_batch : (r : OutboxRow) → Memᴰ r (batch stuck) → is_err (row_to_event codec r) ≡ true
unfolding delivery_computes
bad_batch r (Memᴰ.head e) = ap (λ o. is_err (row_to_event codec o)) e
bad_batch r (Memᴰ.tail m) = elim m [ ]

rounds-IsSame_example :
    IsSame codec stuck (rounds codec 3 stuck) × (batch (rounds codec 3 stuck) ≡ batch stuck)
rounds-IsSame_example = rounds-IsSame codec 3 stuck bad_batch

abbrev created_job : Job
created_job = record {
  id = codes "1";
  type = codes "business.item.created";
  time = some 5;
  actor = [];
  tenant = [];
  item_id = some (codes "x");
}

abbrev effects : Effects
effects = record { connected = true; rows = []; turns = lost ∷ [] }

abbrev one_job : Text → Result Job
one_job raw = ok created_job

abbrev job_delivery : Delivery
job_delivery = record { body = codes "j"; deaths = none }

handle_delivery-Keeps_example :
    let out =
      handle_delivery one_job 5 (handle_job (some (record_effect 5))) 3 job_delivery effects in
    HasUniqueJobs out.1.rows
    × Keeps effects out.1
    × ((j : Job)
        → parse_job one_job 5 (codes "j") ≡ ok j
        → out.0 ≡ acked
        → IsBusiness j
        → HasEffect j.id out.1)
handle_delivery-Keeps_example = handle_delivery-Keeps 5 one_job 3 job_delivery effects tt
