-- ===== src/Approvals/Fields.antt =====
-- What a request that goes out looks like, and what the canUseTool bridge makes of a resolution.
use the_last_aibender.Prelude.{
  ℕ, ◌≡◌, ◌≢◌, ◌⊎◌, refl, true, false, inl, inr, Option, none, some, String, str_eq, arith,
}
use the_last_aibender.Approvals.Types.{
  Source, can_use_tool, hook_floor, workflow_gate, ApprovalOutcome, allowed, denied, expired,
  superseded, ApprovalRequestInput, ApprovalRequest, ApprovalResolution, Broker, BrokerOptions, ok,
  permit, refuse,
}
use the_last_aibender.Approvals.{
  request, assert_matrix, assert_source, assert_tool, is_some, request_of, expiry, permission,
  or_else,
}

-- The field matrix of the protocol.
abbrev pub HasFields : Source → ApprovalRequest → Type 0
HasFields can_use_tool r =
    (is_some r.session_id ≡ true)
    × (is_some r.tool_name ≡ true)
    × (r.run_id ≡ none)
    × (r.step_id ≡ none)
HasFields hook_floor r =
    (is_some r.session_id ≡ true)
    × (is_some r.tool_name ≡ true)
    × (r.run_id ≡ none)
    × (r.step_id ≡ none)
HasFields workflow_gate r =
    (is_some r.run_id ≡ true)
    × (is_some r.step_id ≡ true)
    × (r.tool_name ≡ none)
    × (r.tool_use_id ≡ none)

is_none : (s : Option String) → is_some s ≡ false → s ≡ none
is_none none e = refl
is_none (some s) e = cc

assert_tool-fields :
    (i : ApprovalRequestInput)
    → assert_tool i ≡ none
    → (is_some i.session_id ≡ true)
      × (is_some i.tool_name ≡ true)
      × (i.run_id ≡ none)
      × (i.step_id ≡ none)
assert_tool-fields i e =
    (ground arith, ground arith, is_none i.run_id (ground arith), is_none i.step_id (ground arith))

assert_source-HasFields :
    (s : Source) (o : BrokerOptions) (now : ℕ) (id : String) (i : ApprovalRequestInput)
    → assert_source s i ≡ none
    → HasFields s (request_of o now id i)
assert_source-HasFields can_use_tool o now id i e = assert_tool-fields i e
assert_source-HasFields hook_floor o now id i e = assert_tool-fields i e
assert_source-HasFields workflow_gate o now id i e = (
  ground arith,
  ground arith,
  is_none i.tool_name (ground arith),
  is_none i.tool_use_id (ground arith),
)

pub record Conforms (b : Broker) (r : ApprovalRequest) : Type 0 where
  pub running : b.closed ≡ false
  pub summary : str_eq r.summary "" ≡ false
  pub label : b.options.is_account_label r.account_label ≡ true
  pub id : b.options.is_approval_id r.approval_id ≡ true
  pub fields : HasFields r.source r

-- A request that the broker accepts goes out with the given id and the expiry that its time to live
-- asks for, and conforms to the protocol: the broker is not closed, the summary is not empty, the
-- account label and the approval id are valid, and the fields are those of its source.
pub request-Conforms :
    (now : ℕ) (id : String) (i : ApprovalRequestInput) (b b' : Broker) (r : ApprovalRequest)
    → request now id i b ≡ ok (b', r)
    → Conforms b r × (r.approval_id ≡ id) × (r.expires_at ≡ expiry b.options now i.ttl)
unfolding request assert_matrix
request-Conforms now id i b b' r e =
    let running : b.closed ≡ false = ground arith in
    let summary : str_eq i.summary "" ≡ false = ground arith in
    let label : b.options.is_account_label i.account_label ≡ true = ground arith in
    let source : assert_source i.source i ≡ none = ground arith in
    let good : b.options.is_approval_id id ≡ true = ground arith in
    let same : r ≡ request_of b.options now id i = ground arith in
    rw same (
      record {
        running = running;
        summary = summary;
        label = label;
        id = good;
        fields = assert_source-HasFields i.source b.options now id i source;
      },
      refl,
      refl,
    )

-- The bridge permits a tool call exactly if the approval was allowed, with the decision's input or
-- else the call's own; every other outcome refuses it.
pub permission-cases :
    (r : ApprovalResolution) (input : String)
    → ((r.outcome ≡ allowed) × (permission r input ≡ permit (or_else r.updated_input input)))
      ⊎ ((r.outcome ≢ allowed) × (message : String) × (permission r input ≡ refuse message))
unfolding permission
permission-cases r input = by_outcome r.outcome refl
  where
    by_outcome :
        (o : ApprovalOutcome)
        → r.outcome ≡ o
        → ((r.outcome ≡ allowed) × (permission r input ≡ permit (or_else r.updated_input input)))
          ⊎ ((r.outcome ≢ allowed) × (message : String) × (permission r input ≡ refuse message))
    by_outcome allowed e = inl (e, rw e refl)
    by_outcome denied e = inr (λ a. cc, or_else r.note "denied from the approval inbox", rw e refl)
    by_outcome expired e = inr (λ a. cc, "approval expired with no decision", rw e refl)
    by_outcome superseded e = inr (λ a. cc, "approval superseded (session or run ended)", rw e refl)
