-- ===== src/Lib.antt =====
-- The governance rail, the tasks, the finance service and the workflow runner of Azienda, a business
-- system whose agents act under policy (README.md, ARCHITECTURE.md, GOVERNANCE.md).
--
-- An action first passes the policy engine: it scores the risk of the action, applies the platform's
-- guardrails, then the tenant's rules, then the risk band, and answers allow, deny, or that an
-- approval is needed, which it asks the approval store for. Paid work reserves credits with the
-- budget enforcer. What was done is appended to the audit ledger, after redaction. The task service
-- is a client of the policy engine through its interface, and so are the finance service, which
-- keeps its customers, invoices, payments and expenses in a repository in memory, and the runner of
-- workflows, which also asks an approval store and parks an execution until a signal decides.
--
--   Base                      lists, tests, integers and a monad of state and errors
--   Contracts                 backend/app/core/contracts.py
--   Governance/Approvals      backend/app/governance/approvals/store.py (ApprovalStoreImpl)
--   Governance/Policy/Risk    backend/app/governance/policy/risk.py (risk_band, RiskScorerImpl)
--   Governance/Policy/Rules   backend/app/governance/policy/engine.py (validate_request to rule_matches)
--   Governance/Policy/Engine  the same file (RulePolicyEngine)
--   Governance/Budget         backend/app/governance/budgets/enforcer.py (BudgetEnforcerImpl)
--   Governance/Redact         backend/app/core/redact.py, backend/app/governance/dlp.py
--   Governance/Audit          backend/app/governance/audit/ledger.py (AuditLedgerImpl)
--   Tasks                     backend/app/tasks/service.py, the rows and the checks of TaskService
--   Tasks/Service             the same file, the operations that write
--   Tasks/Projects            the same file, projects, milestones, the queries and delegate_task
--   Tasks/Bulk                the same file, bulk
--   Tasks/Graph               the same file, _dependency_graph and _creates_cycle
--   Workflows                 backend/app/workflows/models.py, the graph of dsl.py
--   Workflows/Dsl             backend/app/workflows/dsl.py (validate_dag, outgoing, default_next)
--   Workflows/Ports           backend/app/workflows/ports.py, what WorkflowRunner is given
--   Workflows/Runner          backend/app/workflows/runner.py (_execute_node, _execute_approval)
--   Workflows/Runner/Service  the same file (drive, signal, cancel)
--   Workflows/Service         backend/app/workflows/service.py (WorkflowService)
--   Workflows/Conditions      backend/app/workflows/conditions.py (resolve_path, evaluate)
--   Finance                   backend/app/finance/schemas.py, repository.py (InMemoryFinanceRepository)
--   Finance/Policy            backend/app/finance/service.py (errors, _enforce_policy, _emit)
--   Finance/Invoices          the same file, invoices and payments
--   Finance/Records           the same file, customers, expenses, accounts, transactions, reminders
--   Finance/Books             the abstract view of invoices and payments: what may happen to them
--   Finance/Reports           backend/app/finance/reports.py, collection_candidates of service.py
--   Finance/Anomalies         backend/app/finance/anomalies.py
--   Finance/Service           the calls of FinanceService that write, in sequence
--
-- The state of a component is a record of the tables that it reads and writes, each a list of rows
-- in the order of their insertion. An operation takes the state and gives it back beside its result,
-- with the source's name for it; a raise is an error value. Ids and times are numbers, a uuid that is
-- generated and the clock are arguments. An amount counts in units of 1/10000, the scale of its
-- column; in finance a price and a quantity do, and an amount in units of 10^-8. What Python and its
-- library do is a parameter: fnmatch, str, float, Decimal, int, json, re.sub, SHA-256, and the
-- months of datetime; so are NEXORA and the policy engine of finance.
--
-- The cycle search runs on fuel: two rounds more than there are edges, since a node is seen once and
-- its edges are pushed once. The searches of a workflow graph have as much as they push, and one
-- round for each node. The loop of drive has eleven rounds for each rank of its graph, the lowest
-- included: a node has at most ten attempts, and a finished one leads to a lower rank. An expression
-- needs more fuel than it has lists and objects. No other definition needs any.
--
-- Not modelled: exceptions of the database, but that of a dependency that is there already, and
-- calls that interleave (an operation is one transaction, and a unique constraint keeps apart what
-- races); the texts of messages, of which the model keeps the parts; the order of rows with equal
-- sort keys, which is that of insertion; list_budgets, cost_ledger_entries and list_alerts of the
-- budgets, list_milestones and get_outcome of the tasks; of workflows render and the built-in
-- actions, which with the expressions are an interface of the runner, its crashes, and the seed
-- and the lists of WorkflowService; and the other packages of backend/app: crm, marketing,
-- support, scheduling, comms, billing, agents, memory, knowledge, the API and the command line.
-- The migrations and the settings declare data and have no logic to model.
pub mod Base
pub mod Contracts
pub mod Governance
pub mod Tasks
pub mod Finance
pub mod Workflows
