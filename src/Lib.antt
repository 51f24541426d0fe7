-- ===== src/Lib.antt =====
-- The recovery core of CrisisMode: risk, validation, safety checks, providers, approvals, standing
-- approvals, hooks, the sequential engine, the graph engine with its rollback, and the watch state.
--
-- The program takes a recovery plan that an agent made, validates it against the agent's manifest
-- (Validator) and runs it step by step (Engine). Before the engine sends the command of a system
-- action to the backend it checks the action's blast radius (Safety), resolves the providers of
-- the capabilities that it requires (Providers, on the registry of Capabilities), takes captures
-- and evaluates preconditions. Approval steps pass the gate of Approval, which looks at the risk
-- of the plan (Risk) and at the risk levels that a standing approval covers (Catalog). Hooks are
-- fired at the stages of a run. The graph engine (Graph) runs the same plans as a graph of nodes and
-- can roll the actions back. A plan can come from a bundle of evidence (Bundle), whose actions are
-- expanded from registered templates (Templates). A watch session keeps what repeated health checks
-- see (Watch). A diagnosis that blames a target passes the guard of Environment.
--
-- Parts and files, with paths from the repository's root:
--   Base           tests, lists as arrays are used, and text as the program builds it.
--   Types          packages/agent-sdk/src/types: plans, steps, manifests, contexts, results. The
--                  constructors of RecoveryStep are the members of the union by `type`.
--   Risk           src/framework/risk.ts and step-walker.ts. walk_steps is the list of the steps
--                  that walkSteps calls its visitor with.
--   Safety         executeCapture and validateBlastRadius of src/framework/safety.ts; Parts and References
--                  say what a known reference is.
--   Capabilities   src/framework/capability-registry.ts: the array and the map as one state.
--   Providers      src/framework/provider-registry.ts.
--   Approval       src/framework/coordinator.ts, and isCatalogCovered of catalog.ts.
--   Hooks          src/framework/hooks: the registry. A handler acts on the world of the model.
--   Validator      src/framework/validator.ts: one function per check (Checks), what each check
--                  asks (Meaning, Steps, Conditions), and what follows for a valid plan.
--   Engine         src/framework/engine.ts, LegacyExecutionEngine. Effects has the actions: state
--                  that outlives an exception. State has the world, the recorder and the trace of
--                  the calls that leave the engine; Action, Steps and Run have the methods,
--                  cut at the points where the source returns early. Logic has the rules for
--                  actions; the other files prove what their names say.
--   Graph          src/framework/graph-engine.ts, graph-nodes.ts, graph-state.ts (Run, Nodes, State)
--                  and graph-rollback.ts (Rollback). Flow has the graphs, and the runtime of the
--                  LangGraph package as a parameter; OneResult, Results, Stacks and RollbackLaws prove.
--   Catalog        src/framework/catalog.ts: the steps and commands of a plan (Operations), the
--                  criteria of an entry, each as the notes that it gives (Criteria), the match
--                  (Match), and what a match promises (Safety, on Depth, Flat, Patterns, Approves).
--   Templates      src/framework/action-template-registry.ts; Registered proves.
--   Bundle         src/framework/bundle-to-plan.ts; Checks and Gates prove.
--   Watch          src/framework/watch-state.ts: Data, Patterns and Card have the methods; the
--                  other files prove what their names say.
--   Environment    src/framework/environment-guard.ts; Verdict proves.
--   Escalation     src/framework/escalation.ts.
--   Maturity       src/framework/agent-maturity.ts.
--   Examples       data, and the theorems applied to it.
--
-- The outside: the backend, the agent, the operator at the terminal, the clock and the handlers
-- of hooks are operations on a world, fields of Engine.State.Env and of the hook registry;
-- nothing is assumed of them but what a theorem states. The guides and the providers that are
-- registered are arguments, and so is what String gives for a value (Environment). A graph
-- runtime is assumed to run the nodes of a graph one after the other, each in a super-step, to
-- reject past its recursion limit (Graph.Flow.IsSequential) and to reduce updates as the schema
-- says; an interrupt ends the stream. What its checkpointer has saved for the thread of the graph
-- engine is an argument of execute_plan; a rollback has a thread of its own, in which nothing is
-- saved. The terminal may reject a question. Floating-point arithmetic (Base.Numbers), the
-- regular expressions of Catalog, dates and the semver package (Catalog.Entry.Library) are
-- parameters of which nothing is assumed. Callbacks are observers, and a call of one is an event
-- of the trace.
--
-- Fuel: execute_step, node_for and what calls them take a fuel that bounds how deep revised plans
-- are nested in revised plans, since the agent may answer with a plan that replans again; it does
-- not bound the steps of a plan. Engine/Termination shows when a fuel of two is enough.
--
-- Not modelled: times and durations in results and in the log, the data of log entries, text of
-- other languages in the lower casing and trimming of identifiers and answers, numbers in JSON
-- values other than naturals, the asynchronous captures and the files of the capture store, the
-- resumption of an interrupted graph from its checkpoint, the text of restored SQL, the metadata of
-- the plan for a bundle, playbooks, triage, the action policy hook, the agents and their backends,
-- and the command line and servers around them.
pub mod Base
pub mod Types
pub mod Risk
pub mod Safety
pub mod Capabilities
pub mod Providers
pub mod Approval
pub mod Catalog
pub mod Hooks
pub mod Engine
pub mod Graph
pub mod Validator
pub mod Watch
pub mod Environment
pub mod Escalation
pub mod Maturity
pub mod Templates
pub mod Bundle
pub mod Examples
