-- ===== src/AgentLoop/Allowed.antt =====
-- When a tool is run: what the checks of `prepare_tool_call` of
-- crates/ri-agent-core/src/agent_loop.rs let pass, told without their order of returns.
use ri.Base.{
  ℕ, ◌≡◌, refl, sym, ap, ◌∙◌, Bool, true, false, Option, none, some, List, [], ◌∷◌, arith, or_else,
  ◌↔◌, if◌then◌else◌, subst,
}
use ri.Message.{Host, AssistantMessage, ToolCall}
use ri.Agent.Types.{AgentEvent}
use ri.Agent.Run.{Outcome, ok, err}
use ri.AgentLoop.Types.{
  AgentLoopConfig, LoopState, LoopContext, AgentTool, Outside, PreparedToolCall,
  ToolCallPreparation, prepared, immediate, AgentToolCallHookContext, AgentToolCallHookResult,
}
use ri.AgentLoop.Record.{record_event}
use ri.AgentLoop.Prepare.{
  was_blocked, call_hooks, hook_answered, unless_aborted, honour, finally, loop_aborted, check_call,
  check_arguments, validate, prepare_arguments, with_tool, settle_call, prepare_tool_call,
  find_tool,
}

module _ {H : Host} where
  abbrev pub blocks : Option (AgentToolCallHookResult H) → Bool
  blocks none = false
  blocks (some r) = r.block

module _ {H : Host} {W : Type 0} where
  abbrev pub with_input :
      AgentToolCallHookContext H W
      → Option (AgentToolCallHookResult H)
      → AgentToolCallHookContext H W
  with_input ctx none = ctx
  with_input ctx (some r) = record ctx { input = or_else ctx.input r.input }

module _ {H : Host} {W S : Type 0} (config : AgentLoopConfig H W S) where
  -- Every hook answers without an error and does not block, the run is not aborted after any of
  -- them nor at the end, and `args` is the input with the replacements of the hooks, each of which
  -- is given what those before it have left.
  abbrev pub Allows :
      List (AgentToolCallHookContext H W → W → Outcome (Option (AgentToolCallHookResult H)) × W)
      → AgentToolCallHookContext H W
      → W
      → H.Value
      → Type 0
  Allows [] ctx w args = ((loop_aborted config w).0 ≡ false) × (args ≡ ctx.input)
  Allows (hook ∷ hooks) ctx w args =
      (r : Option (AgentToolCallHookResult H)) × (w1 : W) × (w2 : W) × (hook ctx w ≡ (ok r, w1))
      × (loop_aborted config w1 ≡ (false, w2))
      × (blocks r ≡ false)
      × Allows hooks (with_input ctx r) w2 args

  finally-ok :
      (ctx : AgentToolCallHookContext H W) (r : Bool × W) (args : H.Value)
      → ((finally ctx r).0 ≡ ok args) ↔ ((r.0 ≡ false) × (args ≡ ctx.input))
  unfolding finally
  finally-ok ctx (true, w) args = (λ h. cc, λ h. cc)
  finally-ok ctx (false, w) args = (λ h. (refl, ground arith), λ h. ap ok (sym h.1))

  honour-ok :
      (later : AgentToolCallHookContext H W → W → Outcome H.Value × W)
      (ctx : AgentToolCallHookContext H W) (r : Option (AgentToolCallHookResult H)) (w : W)
      (args : H.Value)
      → ((honour later ctx r w).0 ≡ ok args)
        ↔ ((blocks r ≡ false) × ((later (with_input ctx r) w).0 ≡ ok args))
  unfolding honour
  honour-ok later ctx none w args = (λ h. (refl, h), λ h. h.1)
  honour-ok later ctx (some r) w args = by_block r.block
    where
      by_block :
          (b : Bool)
          → ((if b
                then (err (or_else was_blocked r.reason), w)
                else later (record ctx { input = or_else ctx.input r.input }) w).0
              ≡ ok args)
            ↔ ((b ≡ false)
                × ((later (record ctx { input = or_else ctx.input r.input }) w).0 ≡ ok args))
      by_block true = (λ h. cc, λ h. cc)
      by_block false = (λ h. (refl, h), λ h. h.1)

  -- The hooks let a call pass with some arguments exactly when they allow it with these.
  call_hooks-ok :
      (hooks : List
        (AgentToolCallHookContext H W → W → Outcome (Option (AgentToolCallHookResult H)) × W))
      (ctx : AgentToolCallHookContext H W) (w : W) (args : H.Value)
      → ((call_hooks config hooks ctx w).0 ≡ ok args) ↔ Allows hooks ctx w args
  unfolding call_hooks
  call_hooks-ok [] ctx w args = finally-ok ctx (loop_aborted config w) args
  call_hooks-ok (hook ∷ hooks) ctx w args =
      by_answer (hook ctx w) refl (λ c v. call_hooks-ok hooks c v args)
    where
      Rest : Type 0
      Rest =
          (c : AgentToolCallHookContext H W) (v : W)
          → ((call_hooks config hooks c v).0 ≡ ok args) ↔ Allows hooks c v args

      by_abort :
          (r : Option (AgentToolCallHookResult H)) (w1 : W) (a : Bool × W)
          → hook ctx w ≡ (ok r, w1)
          → loop_aborted config w1 ≡ a
          → Rest
          → ((unless_aborted (call_hooks config hooks) ctx r a).0 ≡ ok args)
            ↔ Allows (hook ∷ hooks) ctx w args
      by_abort r w1 (true, w2) e f rest = (λ h. cc, λ a. cc (a.3, a.4))
      by_abort r w1 (false, w2) e f rest = (
        λ h.
            let (b, l) = (honour-ok (call_hooks config hooks) ctx r w2 args).0 h in
            (r, w1, w2, e, f, b, (rest (with_input ctx r) w2).0 l),
        λ a.
            let same : a.0 ≡ r = cc (a.3) in
            let next : a.2 ≡ w2 = cc (a.3, a.4) in
            (honour-ok (call_hooks config hooks) ctx r w2 args).1 (
              ap blocks (sym same) ∙ a.5,
              (rest (with_input ctx r) w2).1 (
                  subst
                    (λ (x : Option (AgentToolCallHookResult H)).
                      Allows hooks (with_input ctx x) w2 args)
                    same (subst (λ (v : W). Allows hooks (with_input ctx a.0) v args) next a.6)),
            ),
      )

      by_answer :
          (answer : Outcome (Option (AgentToolCallHookResult H)) × W)
          → hook ctx w ≡ answer
          → Rest
          → ((hook_answered config (call_hooks config hooks) ctx answer).0 ≡ ok args)
            ↔ Allows (hook ∷ hooks) ctx w args
      by_answer (err e, w1) h rest = (λ g. cc, λ a. cc (a.3))
      by_answer (ok r, w1) h rest = by_abort r w1 (loop_aborted config w1) h refl rest

with_tool-ok :
    {T V W : Type 0} (tool tool' : T) (args : V) (r : Outcome V × W)
    → ((with_tool tool r).0 ≡ ok (tool', args)) ↔ ((tool ≡ tool') × (r.0 ≡ ok args))
unfolding with_tool
with_tool-ok tool tool' args (ok a, w) = (λ h. (cc h, cc h), λ h. ground (arith, h.0, h.1))
with_tool-ok tool tool' args (err e, w) = (λ h. cc, λ h. cc (h.1))

module _ {H : Host} {W S : Type 0} (outside : Outside H W S) (config : AgentLoopConfig H W S)
    (context : LoopContext H W) (assistant : AssistantMessage H) (index : ℕ)
    (call : ToolCall H) where
  abbrev hook_context : H.Value → AgentToolCallHookContext H W
  hook_context args = record {
    tool_call_id = call.id;
    tool_name = call.name;
    input = args;
    assistant_message = assistant;
    tool_call = call;
    context = context;
  }

  abbrev pub prepared_call : AgentTool H W → H.Value → PreparedToolCall H W
  prepared_call tool args = record {
    index = index;
    tool_call_id = call.id;
    tool_name = call.name;
    args = args;
    event_args = outside.object call.arguments;
    assistant_message = assistant;
    tool_call = call;
    context = context;
    tool = tool;
  }

  -- The tool is that of the name, its preparer and the check of arguments accept, and the hooks
  -- allow what comes out of them.
  abbrev pub Passes : AgentTool H W → W → H.Value → Type 0
  Passes tool w args =
      (a : H.Value) × (b : H.Value) × (find_tool context.tools call.name ≡ some tool)
      × (prepare_arguments tool.argument_preparer (outside.object call.arguments) ≡ ok a)
      × (outside.validate_tool_arguments_value tool.definition call.name a ≡ ok b)
      × Allows config config.tool_call_hooks (hook_context b) w args

  validate-ok :
      (tool : AgentTool H W) (o : Outcome H.Value) (b : H.Value)
      → (validate outside tool call o ≡ ok b) ↔ (
          (a : H.Value) × (o ≡ ok a)
          × (outside.validate_tool_arguments_value tool.definition call.name a ≡ ok b))
  unfolding validate
  validate-ok tool (err e) b = (λ h. cc, λ h. cc (h.1))
  validate-ok tool (ok a) b = (
    λ h. (a, refl, h),
    λ h.
        let same : h.0 ≡ a = cc (h.1) in
        ap (outside.validate_tool_arguments_value tool.definition call.name) (sym same) ∙ h.2,
  )

  check_arguments-ok :
      (o : Outcome H.Value) (w : W) (args : H.Value)
      → ((check_arguments outside config context assistant call o w).0 ≡ ok args) ↔ (
          (b : H.Value) × (o ≡ ok b) × Allows config config.tool_call_hooks (hook_context b) w args)
  unfolding check_arguments
  check_arguments-ok (err e) w args = (λ h. cc, λ h. cc (h.1))
  check_arguments-ok (ok b) w args =
      let hooks = call_hooks-ok config config.tool_call_hooks (hook_context b) w args in
      (
        λ h. (b, refl, hooks.0 h),
        λ h.
            let same : h.0 ≡ b = cc (h.1) in
            hooks.1 (
              subst (λ (x : H.Value). Allows config config.tool_call_hooks (hook_context x) w args)
                same h.2),
      )

  check_call-ok :
      (found : Option (AgentTool H W)) (tool : AgentTool H W) (w : W) (args : H.Value)
      → find_tool context.tools call.name ≡ found
      → ((check_call outside config context assistant call found w).0 ≡ ok (tool, args))
        ↔ Passes tool w args
  unfolding check_call
  check_call-ok none tool w args e = (λ h. cc, λ h. cc (h.2))
  check_call-ok (some t) tool w args e =
      let o = prepare_arguments t.argument_preparer (outside.object call.arguments) in
      let checks = check_arguments-ok (validate outside t call o) w args in
      let whole =
        with_tool-ok t tool args
          (check_arguments outside config context assistant call (validate outside t call o) w) in
      (
        λ h.
            let (same, h1) = whole.0 h in
            let (b, h2, h3) = checks.0 h1 in
            let (a, h4, h5) = (validate-ok t o b).0 h2 in
            subst (λ (x : AgentTool H W). Passes x w args) same (a, b, e, h4, h5, h3),
        λ (a, b, f, h4, h5, h3).
            let same : t ≡ tool = cc (e, f) in
            whole.1 (
              same,
              checks.1 (
                b,
                (validate-ok t o b).1 (
                  a,
                  ap
                        (λ (x : AgentTool H W).
                          prepare_arguments x.argument_preparer (outside.object call.arguments))
                        same
                      ∙ h4,
                  ap
                        (λ (x : AgentTool H W).
                          outside.validate_tool_arguments_value x.definition call.name a)
                        same
                      ∙ h5,
                ),
                h3,
              ),
            ),
      )

  abbrev ready : ToolCallPreparation H W → Outcome (AgentTool H W × H.Value)
  ready (prepared c) = ok (c.tool, c.args)
  ready (immediate o) = err []

  settle_call-ok :
      (checked : Outcome (AgentTool H W × H.Value)) (tool : AgentTool H W) (args : H.Value)
      → (settle_call outside index call assistant context checked
          ≡ prepared (prepared_call tool args))
        ↔ (checked ≡ ok (tool, args))
  unfolding settle_call
  settle_call-ok (err e) tool args = (λ h. cc (ap ready h), λ h. cc)
  settle_call-ok (ok (t, a)) tool args =
      (λ h. ap ready h, λ h. ap (settle_call outside index call assistant context) h)

module _ {H : Host} {W S : Type 0} (outside : Outside H W S) (config : AgentLoopConfig H W S) where
  -- A call is made ready to run, with a tool and arguments, exactly when the tool is the one of its
  -- name, the tool's preparer and the check of arguments accept the arguments of the message, every
  -- hook answers without an error and without a block, the run is not aborted after any hook nor
  -- after the last, and the arguments are those accepted, with the hooks' replacements in turn.
  pub prepare_tool_call_lem :
      (assistant : AssistantMessage H) (index : ℕ) (call : ToolCall H) (s : LoopState H W)
      (tool : AgentTool H W) (args : H.Value)
      → let started =
          record_event config
            (AgentEvent.tool_execution_start call.id call.name (outside.object call.arguments))
            s in
        ((prepare_tool_call outside config assistant index call s).0
          ≡ prepared (prepared_call outside config started.context assistant index call tool args))
        ↔ Passes outside config started.context assistant index call tool started.world args
  unfolding prepare_tool_call
  prepare_tool_call_lem assistant index call s tool args =
      let t =
        record_event config
          (AgentEvent.tool_execution_start call.id call.name (outside.object call.arguments)) s in
      let found = find_tool t.context.tools call.name in
      let (checked, w) = check_call outside config t.context assistant call found t.world in
      let settles =
        settle_call-ok outside config t.context assistant index call checked tool args in
      let checks =
        check_call-ok outside config t.context assistant index call found tool t.world args refl in
      (λ h. checks.0 (settles.0 h), λ h. settles.1 (checks.1 h))
