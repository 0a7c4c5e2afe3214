-- ===== src/Journal.antt =====
-- What the connector counts and audits (`_stats`, `_audit_event` and the join key of every event
-- about a request). Of an audit row the event's name and its join key are kept; the further fields
-- of a row, the log lines and the file itself are not modelled.
use semblend_vllm_connector.Prelude.{
  ℕ, suc, ◌+◌, String, Bool, Option, none, some, List, ◌∷◌, if◌then◌else◌, Dict, get, put, remove,
}

pub record AuditJoinKey : Type 0 where
  pub request_id : String
  pub request_seq : ℕ
  pub event_seq : ℕ

pub record AuditRow : Type 0 where
  pub event : String
  pub join : Option AuditJoinKey

-- `rows` is the audit file, its last row first.
pub record Journal : Type 0 where
  pub audit_path : Bool
  pub stats : Dict ℕ
  pub request_seqs : Dict ℕ
  pub request_event_seqs : Dict ℕ
  pub next_request_seq : ℕ
  pub rows : List AuditRow

abbrev pub or_zero : Option ℕ → ℕ
or_zero none = 0
or_zero (some n) = n

-- A `Counter`: a key that is missing counts 0.
unfoldable pub stat : String → Journal → ℕ
stat key j = or_zero (get key j.stats)

unfoldable pub count_by : ℕ → String → Journal → Journal
unfolding stat
count_by n key j = record j { stats = put key (stat key j + n) j.stats }

abbrev pub count : String → Journal → Journal
count = count_by 1

stamped : Option ℕ → String → Journal → ℕ × Journal
stamped (some existing) request_id j = (existing, j)
stamped none request_id j = (
  suc j.next_request_seq,
  record j {
    next_request_seq = suc j.next_request_seq;
    request_seqs = put request_id (suc j.next_request_seq) j.request_seqs;
  },
)

unfoldable pub stamp_request_seq : String → Journal → ℕ × Journal
unfolding stamped
stamp_request_seq request_id j = stamped (get request_id j.request_seqs) request_id j

unfoldable pub take_event_seq : String → Journal → ℕ × Journal
take_event_seq request_id j =
    let event_seq = or_zero (get request_id j.request_event_seqs) in
    (
      event_seq,
      record j { request_event_seqs = put request_id (suc event_seq) j.request_event_seqs },
    )

unfoldable pub join_key : String → Journal → AuditJoinKey × Journal
unfolding stamp_request_seq take_event_seq
join_key request_id j =
    let (request_seq, j') = stamp_request_seq request_id j in
    let (event_seq, j'') = take_event_seq request_id j' in
    (record { request_id = request_id; request_seq = request_seq; event_seq = event_seq }, j'')

unfoldable pub forget_request_join_key : String → Journal → Journal
forget_request_join_key request_id j = record j {
  request_seqs = remove request_id j.request_seqs;
  request_event_seqs = remove request_id j.request_event_seqs;
}

write_row : AuditRow → Journal → Journal
write_row row j = record j { rows = row ∷ j.rows }

-- An event that names a request.
unfoldable pub audit : String → String → Journal → Journal
unfolding join_key write_row
audit event request_id j =
    if j.audit_path
    then (let (key, j') = join_key request_id j in
        write_row (record { event = event; join = some key }) j')
    else j

-- An event of the engine as a whole.
unfoldable pub audit_engine : String → Journal → Journal
unfolding write_row
audit_engine event j =
    if j.audit_path then write_row (record { event = event; join = none }) j else j
