-- ===== src/Lib.antt =====
-- A model of the core of ri, an agent library in Rust: sessions, which keep a conversation as a
-- tree of entries; the stateful agent, which keeps a transcript, queues messages and starts runs;
-- the loop of turns, which asks the model and runs tools; what is done to a conversation before a
-- model gets it, and the retries of a call; the cutting of tool output to limits; and the choice
-- of what a compaction keeps. The paths below are from the repository's root.
--
-- The parts and their files:
-- Base: lists, texts, maps and integers. A text is the list of its Unicode scalar values; a map
--   keyed by strings is an association list, whose order no definition reads; `u64` and `usize`
--   are natural numbers, with the wrap-around written out where a counter can reach it.
-- Message: the conversation messages of crates/ri-llm-provider/src/types.rs. Its record Host
--   stands for the JSON values of serde_json and the floating-point numbers, which are only kept.
-- Session: crates/ri-agent-core/src/harness/session.rs. Session.Entry has the entries and errors;
--   Session.Storage is InMemorySessionStorage with its index, labels and leaf, and the ids (the
--   times and the random ids are arguments, in Env); Session.Path has the two walks from an entry
--   to the root, get_path_to_root and get_path_to_root_or_compaction; Session.Tree has the
--   methods of Session (append_message, append_label, move_to, branch and the others) over the
--   storage, and Session.Tree.Steps has them as calls; Session.Context derives the state and the
--   messages for a model from a path (derive_session_context_state,
--   default_context_entry_transform, session_entry_to_context_messages, build_session_context).
-- Agent: crates/ri-agent-core/src/agent.rs with the data of crates/ri-agent-core/src/types.rs.
--   Agent.Queue is PendingMessageQueue and QueuedMessageProviderChain; Agent.Reduce is
--   reduce_agent_state; Agent.Machine has the fields of Agent and the methods beside a run
--   (steer, follow_up, reset, subscribe); Agent.Run has prompt, prompt_messages,
--   prompt_with_images, continue_run and run_with_skip, which is split where it waits for the
--   loop: what the loop is called with, and what its outcome does. Agent.Life has all of these as
--   steps from a new agent.
-- AgentLoop: crates/ri-agent-core/src/agent_loop.rs. AgentLoop.Types has its configuration, its
--   state and the tools, hooks and providers of crates/ri-agent-core/src/types.rs, each of which
--   is a function of a world that the model knows nothing of, and that it may change in any way;
--   AgentLoop.Record has record_event and the messages; AgentLoop.Prepare is prepare_tool_call
--   and AgentLoop.Execute execute_tool_calls, with the source order of results; AgentLoop.Turn is
--   run_one_turn and AgentLoop.Run run_until_done; AgentLoop.Call has agent_loop_prompt,
--   agent_loop_prompt_messages and agent_loop_continue. AgentLoop.Effect, AgentLoop.Order and
--   AgentLoop.Pairs have the proofs, and AgentLoop.Joined joins agent and loop.
-- MessageTransform: crates/ri-llm-provider/src/message_transform.rs. MessageTransform.Images is
--   downgrade_unsupported_images; MessageTransform.Assistant is transform_assistant_message and
--   the pass of transform_messages with the ids that it has changed; MessageTransform.Synthetic
--   is insert_synthetic_tool_results; MessageTransform.Whole is transform_messages. The others
--   are proofs.
-- Retry: crates/ri-llm-provider/src/retry.rs, with the classes of errors, the delays and the
--   sleep; Retry.Call is retry_assistant_call over a world that the call, the sleep, the abort
--   flag and the callbacks change; Retry.Sleep and Retry.Bounds have the proofs.
-- Truncate: crates/ri-agent-core/src/harness/truncate.rs, with the slices of str by bytes as
--   partial functions, whose none is a panic.
-- Compaction: crates/ri-agent-core/src/harness/compaction.rs. Compaction.Estimate has the
--   estimates of tokens; Compaction.Usage has estimate_session_context_token_usage, which takes
--   the usage that a service reported last as its anchor, and should_compact; Compaction.Cut has
--   find_cut_point, find_valid_cut_points and find_entry_turn_start_index, where none is a panic;
--   Compaction.Files has the files that are found in a conversation, over the record Json for
--   what serde_json tells of a value; Compaction.Prepare has prepare_compaction;
--   Compaction.Branch has prepare_branch_entries.
--
-- How they interact: a run of the agent calls the loop with its context. The loop emits events,
-- which the agent is given by its event sink: reduce_agent_state folds them into the state, and
-- the listeners see them. The harness of the program, which is not modelled, appends the messages
-- of a run to a session, whose branch gives the context of the next.
--
-- Fuel: the walks to the root take fuel, one unit for each entry that they visit. The walks of a
-- valid storage visit no entry twice, so the number of its entries is enough; `branch` is stated
-- at any fuel that is enough. The search for an id tries a hundred, as the code does. The loop
-- over turns is a recursion on max_turns, the code's own bound; the collection of tools that run
-- at once is one on the number of calls, one of which ends in each round. A sleep takes a unit of
-- fuel for each millisecond and a retried call one for each call, of which there are no more than
-- the retries and one. All other loops are structural recursions.
--
-- Not modelled: the interleaving of tools that run at once (each is taken as a whole, in the
-- order in which they end, which is a parameter); the summaries of compaction, the harness, JSONL
-- and SQLite storage, repositories and forks; normalize_openai_completions_tool_call_id and the
-- delays of the SDKs; the providers, models and logins of crates/ri-llm-provider; locks and
-- threads (a method runs alone); format_size, which prints floating-point numbers; serialisation.
pub mod Base
pub mod Message
pub mod Session
pub mod Agent
pub mod AgentLoop
pub mod MessageTransform
pub mod Retry
pub mod Truncate
pub mod Compaction
