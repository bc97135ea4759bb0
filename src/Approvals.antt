-- ===== src/Approvals.antt =====
-- core/src/kernel/approvals.ts: the approval broker and the canUseTool bridge. A call returns the new
-- broker beside its answer; a call that throws leaves the broker as it was. Time and the fresh
-- approval id are arguments. Listeners are numbers, and do not call back into the broker.
pub mod Types
pub mod Ledger
pub mod Entries
pub mod History
pub mod Endings
pub mod Races
pub mod Fields
pub mod Tests
use the_last_aibender.Prelude.{
  ℕ, suc, ◌+◌, ◌==◌, Bool, true, false, not, ◌&&◌, ◌||◌, Option, none, some, List, [], ◌∷◌, ◌++◌,
  map, String, str_eq, if◌then◌else◌, keep, find, any, length, append,
}
use the_last_aibender.Prelude.Maps.{get, put, delete, values, has_key}
use Types.{
  Source, can_use_tool, hook_floor, workflow_gate, Verdict, allow, deny, ApprovalOutcome, allowed,
  denied, expired, superseded, Ttl, by_default, never, after, ApprovalRequestInput, ApprovalRequest,
  ApprovalDecision, ApprovalResolution, Message, requested, resolved, PendingEntry, BrokerOptions,
  Broker, BrokerError, broker_closed, summary_required, unknown_account_label, session_id_required,
  tool_name_required, workflow_gate_only, run_and_step_required, tool_on_workflow_gate,
  invalid_approval_id, bad_request, approval_not_pending, Answer, ok, err, PermissionResult, permit,
  refuse,
}

abbrev pub create_approval_broker : BrokerOptions → Broker
create_approval_broker o = record {
  options = o;
  pending = [];
  timers = [];
  listeners = [];
  closed = false;
  requests = 0;
  settled = [];
  heard = [];
}

abbrev pub fan_out : Message → Broker → Broker
fan_out m b = record b { heard = b.heard ++ map (λ l. (l, m)) b.listeners }

-- `clearTimeout` of the entry's own timer.
abbrev pub clear_timer : PendingEntry → List PendingEntry → List PendingEntry
clear_timer e = keep (λ t. not (t.handle == e.handle))

pub resolve_entry : PendingEntry → ApprovalResolution → Broker → Broker
resolve_entry e r b = fan_out (resolved e.request.approval_id r.outcome) (record b {
  timers = clear_timer e b.timers;
  pending = delete e.request.approval_id b.pending;
  settled = b.settled ++ (e.handle, r) ∷ [];
})

abbrev pub bare : ApprovalOutcome → ApprovalResolution
bare o = record { outcome = o; updated_input = none; note = none }

abbrev pub is_some : Option String → Bool
is_some none = false
is_some (some s) = true

-- The field matrix of the two sources with a tool, and of the workflow gate.
abbrev pub assert_tool : ApprovalRequestInput → Option BrokerError
assert_tool i =
    if not (is_some i.session_id)
    then some session_id_required
    else if not (is_some i.tool_name)
    then some tool_name_required
    else if is_some i.run_id || is_some i.step_id
    then some workflow_gate_only
    else none

abbrev pub assert_gate : ApprovalRequestInput → Option BrokerError
assert_gate i =
    if not (is_some i.run_id) || not (is_some i.step_id)
    then some run_and_step_required
    else if is_some i.tool_name || is_some i.tool_use_id
    then some tool_on_workflow_gate
    else none

abbrev pub assert_source : Source → ApprovalRequestInput → Option BrokerError
assert_source can_use_tool i = assert_tool i
assert_source hook_floor i = assert_tool i
assert_source workflow_gate i = assert_gate i

pub assert_matrix : BrokerOptions → ApprovalRequestInput → Option BrokerError
assert_matrix o i =
    if str_eq i.summary ""
    then some summary_required
    else if not (o.is_account_label i.account_label)
    then some unknown_account_label
    else assert_source i.source i

abbrev pub add_now : ℕ → Option ℕ → Option ℕ
add_now now none = none
add_now now (some ms) = some (now + ms)

abbrev pub expiry : BrokerOptions → ℕ → Ttl → Option ℕ
expiry o now by_default = add_now now o.default_ttl_ms
expiry o now never = none
expiry o now (after ms) = some (now + ms)

abbrev pub request_of : BrokerOptions → ℕ → String → ApprovalRequestInput → ApprovalRequest
request_of o now id i = record {
  approval_id = id;
  source = i.source;
  summary = i.summary;
  account_label = i.account_label;
  session_id = i.session_id;
  tool_name = i.tool_name;
  tool_use_id = i.tool_use_id;
  run_id = i.run_id;
  step_id = i.step_id;
  expires_at = expiry o now i.ttl;
}

abbrev pub has_expiry : Option ℕ → Bool
has_expiry none = false
has_expiry (some t) = true

abbrev pub arm : PendingEntry → List PendingEntry → List PendingEntry
arm e timers = if e.has_timer then timers ++ e ∷ [] else timers

-- The part of `request` behind the checks.
pub enqueue : ApprovalRequest → Broker → Broker
enqueue r b =
    let e : PendingEntry = record {
      request = r;
      handle = b.requests;
      has_timer = has_expiry r.expires_at;
    } in
    fan_out (requested r) (record b {
      pending = put r.approval_id e b.pending;
      timers = arm e b.timers;
      requests = suc b.requests;
    })

abbrev pub accept :
    Option BrokerError
    → ℕ
    → String
    → ApprovalRequestInput
    → Broker
    → Answer (Broker × ApprovalRequest)
accept (some e) now id i b = err e
accept none now id i b =
    if not (b.options.is_approval_id id)
    then err invalid_approval_id
    else let r = request_of b.options now id i in ok (enqueue r b, r)

pub request : ℕ → String → ApprovalRequestInput → Broker → Answer (Broker × ApprovalRequest)
unfolding assert_matrix enqueue
request now id i b =
    if b.closed then err broker_closed else accept (assert_matrix b.options i) now id i b

abbrev pub verdict_outcome : Verdict → ApprovalOutcome
verdict_outcome allow = allowed
verdict_outcome deny = denied

abbrev pub is_allow : Verdict → Bool
is_allow allow = true
is_allow deny = false

abbrev pub decide_on : Option PendingEntry → ApprovalDecision → Broker → Answer (Broker × Message)
decide_on none d b = err approval_not_pending
decide_on (some e) d b =
    let r : ApprovalResolution = record {
      outcome = verdict_outcome d.verdict;
      updated_input = d.updated_input;
      note = d.note;
    } in
    ok (resolve_entry e r b, resolved e.request.approval_id r.outcome)

pub decide : ApprovalDecision → Broker → Answer (Broker × Message)
unfolding resolve_entry
decide d b =
    if not (is_allow d.verdict) && is_some d.updated_input
    then err bad_request
    else decide_on (get d.approval_id b.pending) d b

pub pending_requests : Broker → List ApprovalRequest
pending_requests b = map (λ (e : PendingEntry). e.request) (values b.pending)

abbrev pub supersede_on : Option PendingEntry → Broker → Broker × Bool
supersede_on none b = (b, false)
supersede_on (some e) b = (resolve_entry e (bare superseded) b, true)

pub supersede : String → Broker → Broker × Bool
unfolding resolve_entry
supersede id b = supersede_on (get id b.pending) b

-- The loops of `supersedeSession` and `close`, over a copy of the pending entries.
pub supersede_all : List PendingEntry → Broker → Broker
unfolding resolve_entry
supersede_all [] b = b
supersede_all (e ∷ es) b = supersede_all es (resolve_entry e (bare superseded) b)

abbrev pub same_session : String → Option String → Bool
same_session id none = false
same_session id (some s) = str_eq s id

abbrev pub in_session : String → PendingEntry → Bool
in_session id e = same_session id e.request.session_id

pub supersede_session : String → Broker → Broker × ℕ
unfolding supersede_all
supersede_session id b =
    let es = keep (in_session id) (values b.pending) in (supersede_all es b, length es)

pub close : Broker → Broker
unfolding supersede_all
close b =
    if b.closed
    then b
    else record (supersede_all (values b.pending) (record b { closed = true })) { listeners = [] }

-- A timer runs out, if it is armed.
abbrev pub fire_on : Option PendingEntry → Broker → Broker
fire_on none b = b
fire_on (some e) b =
    let ran = record b { timers = clear_timer e b.timers } in
    if has_key e.request.approval_id b.pending then resolve_entry e (bare expired) ran else ran

pub fire : ℕ → Broker → Broker
unfolding resolve_entry
fire handle b = fire_on (find (λ (t : PendingEntry). t.handle == handle) b.timers) b

abbrev pub unsubscribe : ℕ → Broker → Broker
unsubscribe l b = record b { listeners = keep (λ k. not (k == l)) b.listeners }

-- A `Set` keeps one copy.
abbrev pub subscribe : ℕ → Broker → Broker
subscribe l b =
    if any (λ k. k == l) b.listeners then b else record b { listeners = b.listeners ++ l ∷ [] }

-- The canUseTool bridge: what it asks of the broker, and what it answers.
pub bridge_input : String → String → Ttl → String → Option String → ApprovalRequestInput
bridge_input session_id account_label ttl tool_name tool_use_id = record {
  source = can_use_tool;
  summary = append "tool escalation: " tool_name;
  account_label = account_label;
  session_id = some session_id;
  tool_name = some tool_name;
  tool_use_id = tool_use_id;
  run_id = none;
  step_id = none;
  ttl = ttl;
}

abbrev pub or_else : Option String → String → String
or_else none s = s
or_else (some t) s = t

abbrev permission_of : ApprovalOutcome → ApprovalResolution → String → PermissionResult
permission_of allowed r input = permit (or_else r.updated_input input)
permission_of denied r input = refuse (or_else r.note "denied from the approval inbox")
permission_of expired r input = refuse "approval expired with no decision"
permission_of superseded r input = refuse "approval superseded (session or run ended)"

pub permission : ApprovalResolution → String → PermissionResult
permission r input = permission_of r.outcome r input
