-- ===== src/Tests/Listed.antt =====
-- A listing of one event, and an entry event that is sent in the background.
use ting_boundless.Audit.{body_limit, as_row, find_event, Event, Codec}
use ting_boundless.Base.{
  take, sym, text_eq, ◌∙◌, ap, arranged, place, length, List, codes, ◌≤◌, ◌∷◌, ◌≢◌, ◌≡◌, refl, true,
  some, none, [],
}
use ting_boundless.Base.Results.{ok_eq, ok}
use ting_boundless.Audit.Query.{
  page, row_limit, is_selected, filtered_by, newest_first, instant, read_rows, read_row,
  read_details, with_details, read_next, query_limit, limit_of, listed, context_identity, list,
  serve_query, filter_of, listing, serve_query, audit_events, Reader,
}
use ting_boundless.Audit.Query.Rows.{IsCollation}
use ting_boundless.Audit.Query.Reads.{IsListing}
use ting_boundless.Http.{x_user_id, x_tenant_id, x_roles, get, Request, Headers}
use ting_boundless.Tests.Fixtures.{request_to, texts_compute}
use ting_boundless.Identity.{authenticated, has_role, split_csv, from_headers, from_headers}
use ting_boundless.Audit.Entry.{
  new_id, new_event, entry_event, emit_entry, schedule, finished, sends, emit_answered, Background,
}
use ting_boundless.Storage.Sign.{text_leb}
use mathlib.Core.List.{Memᴰ}
use ting_boundless.Storage.Sign.Laws.{text_leb_trans, text_leb_total}
use ting_boundless.Httpx.{trusted_role}
use ting_boundless.Audit.Entry.Laws.{IsOther, emit_entry-IsStored}
use ting_boundless.Audit.Query.Laws.{audit_events-IsListing, IsOwn}
use ting_boundless.Trace.{hex}

abbrev made : Event
made = record {
  id = codes "i";
  source = codes "gateway";
  type = codes "api.access.denied";
  subject = [];
  time = some 5;
  tenant_id = codes "t1";
  actor_user_id = [];
  details = some (codes "{}");
}

abbrev reader : Reader
reader = record {
  connected = true;
  answers = true;
  at_most = text_leb;
  unmarshal = λ raw. ok (some raw);
  atoi = λ raw. none;
}

abbrev collation : IsCollation text_leb
collation = record { total = text_leb_total; trans = text_leb_trans }

abbrev admin_headers : Headers
admin_headers x_user_id = codes "u" ∷ []
admin_headers x_tenant_id = codes "t1" ∷ []
admin_headers x_roles = codes "admin" ∷ []
admin_headers _ = []

abbrev listing_request : Request
listing_request = request_to "/v1/audit/events" admin_headers none

listing_computes : Unit {0}
unfolding texts_compute audit_events serve_query trusted_role authenticated has_role from_headers
    split_csv get page row_limit is_selected filtered_by newest_first instant read_rows read_row
    read_details with_details read_next query_limit limit_of listed context_identity list filter_of
    arranged place
listing_computes = tt

listing_lem : audit_events reader true (made ∷ []) none listing_request ≡ listing (made ∷ [])
unfolding listing_computes
listing_lem = refl

audit_events-IsListing_example :
    ((from_headers admin_headers).user_id ≢ [])
    × Memᴰ (codes "admin") (from_headers admin_headers).roles
    × (length (made ∷ []) ≤ 100)
    × ((from_headers admin_headers).tenant_id ≢ []
        → (e : Event) → Memᴰ e (made ∷ [])
        → IsOwn (from_headers admin_headers).tenant_id e)
    × IsListing reader
        (filter_of reader (from_headers admin_headers) listing_request)
        (made ∷ [])
        (made ∷ [])
audit_events-IsListing_example =
    audit_events-IsListing reader true (made ∷ []) (made ∷ []) none listing_request collation
      listing_lem

abbrev denied_request : Request
denied_request = request_to "/v1/users" admin_headers none

abbrev entry : Event
entry =
    entry_event (λ m. codes "{}") (ok (10 ∷ [])) 5 (codes "api.access.denied") denied_request
      (codes "r1") []

abbrev codec : Codec
codec = record {
  encode = λ e. e.id;
  decode = λ raw. ok (record entry { id = raw });
  object = λ raw. ok (some raw);
  member = λ o key. [];
  validates = λ e. true;
}

-- An event that another request left to a goroutine.
abbrev one_before : Background (List Event)
one_before = record { pending = record entry { id = codes "j" } ∷ []; world = [] }

abbrev all_sent : Background (List Event)
all_sent = record {
  pending = [];
  world =
      (emit_answered codec entry (emit_answered codec (record entry { id = codes "j" }) []).1).1;
}

emit_entry-IsStored_example : find_event entry.id all_sent.world ≡ some (as_row entry)
unfolding texts_compute emit_entry schedule entry_event new_event new_id find_event hex
emit_entry-IsStored_example =
    emit_entry-IsStored codec (λ m. codes "{}") (ok (10 ∷ [])) 5 denied_request (codes "r1")
      (codes "api.access.denied") [] one_before all_sent
      (record { decodes = refl; complete = refl; validates = refl }) refl other
      (sends (entry ∷ []) (record entry { id = codes "j" }) [] []
        (sends [] entry [] (emit_answered codec (record entry { id = codes "j" }) []).1 finished))
      refl
  where
    other : (f : Event) → Memᴰ f one_before.pending → IsOther codec entry.id f
    other f (Memᴰ.head q) g h =
        ap (λ x. text_eq x.id entry.id)
          (sym (ok_eq (sym (ap (λ x. codec.decode (take body_limit (codec.encode x))) q) ∙ h)))
    other f (Memᴰ.tail m) g h = elim m [ ]
