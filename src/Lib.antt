-- ===== src/Lib.antt =====
-- A model of the backend of gomer, an assistant for advertising teams that works in Slack: a
-- NestJS service over PostgreSQL. The parts modelled are those that hold money, act by
-- themselves, or decide who is let in and what is stored for them.
--
-- The credit ledger (src/usage, src/ai/providers/model-catalog.ts). A workspace is granted credits
-- in four buckets, each run of the assistant is charged for its tokens, and the charge is drawn
-- from the grants that are live, bucket by bucket.
--   Usage/Types     the credit enums and the rows of the three ledger tables
--   Usage/Pricing   model-catalog.ts (buildCatalog, creditRates, listCostUsd), creditsFor
--   Usage/Planner   planAllocations
--   Usage/Ledger    recordEvent, allocate, liveGrantsForSpending, grantCredits,
--                   grantOnboardingCredits, hasGrantForStripeSession
--   Usage/Balance   getBalance, summarizeForWorkspace
--   Usage/Days      dailyUsageSplit, zeroFilledDays and the totals of analyticsForWorkspace
-- Billing (src/billing). Stripe's subscriptions are mirrored in a table, and each paid invoice
-- grants the plan's allowance, what is carried forward, and a bonus for seats.
--   Billing/Plans           plans.ts
--   Billing/Subscriptions   syncFromStripe, markStatus, isEntitled and the lookups of
--                           subscriptions.service.ts
--   Billing/Webhook         handleWebhook of billing.service.ts after verifySignature, and its
--                           handlers of checkouts, invoices and subscriptions
--   Billing/Renewal         applyRenewal, unspentPlanCredits, seatBonusFor; a renewal writes to
--                           the tables of Usage/Types, which Usage/Balance reads
-- The ad rules (src/rules/rules.service.ts, src/integrations/meta-metrics.ts). A scheduler runs
-- the rules that are due; each reads a metric off the rows that Meta reports, and alerts, pauses or
-- scales what breaches its threshold, within guardrails.
--   Rules/Types     the rows of the two tables, and the outcome of a call that may throw
--   Rules/Metrics   extractMetric, breaches, clampPct, pickPurchaseValue, the scaled budget
--   Rules/Platform  the database of the rules, what the engine calls, and its reports
--   Rules/Engine    evaluateRule, executeMutations, applyAction, evaluateVerifiedRoas, runDueRules
--   Rules/Crud      create with validate, setActive, remove
--   Rules/History   the tables' life as a step relation over those operations
-- Scheduled tasks (src/tasks/tasks.service.ts). A prompt runs on a cron schedule or once, and its
-- answer is posted to Slack.
--   Tasks/Rows      the table, the bodies of requests, nextRunFrom (next_run_at)
--   Tasks/Requests  create, update, remove (create_task, update_task, remove_task), findOwned
--                   (find_modifiable), ensureSystemCheckIn
--   Tasks/Runs      executeTask with deliver, runNow, runDueTasks
-- Spaces (src/spaces). The assistant builds apps from a declarative spec, and pages of HTML that it
-- edits by find and replace; both are served at an address of their own, to visitors who sign in by a
-- link or with their dashboard session.
--   Spaces/Page       applyPageEdits, validatePageHtml of page/page-input.ts; a text is the list of
--                     its UTF-16 code units
--   Spaces/Json       what a request's body holds: values, lists and objects
--   Spaces/Checks     the tests and the error list of spec/validate-spec.ts
--   Spaces/Spec       validateAppSpec, validateEntity, validateField, validateView, validateWidget
--   Spaces/Convert    String(v), Number(v), Boolean(v) and the reading of a key
--   Spaces/Records    validateRecordData, coerceFieldValue, the interfaces of spec/app-spec.ts
--   Spaces/Seeds      spec/seed-records.ts: prepareSeedRecords, resolveReferences, labelFieldOf
--   Spaces/Rows       the tables, findPublishedBySlug
--   Spaces/Slug       uniqueSlug
--   Spaces/Accepted   a spec that was accepted, as the code reads it
--   Spaces/Apps       createFromSpec, addRecords, updateSpec, deleteForWorkspace, createRecord,
--                     updateRecord, deleteRecord of spaces.service.ts
--   Spaces/Sessions   spaces-auth.service.ts: requestLink, verify (verify_link), workspaceSession,
--                     upsertMember, purgeExpired; findTeammate of
--                     spaces-link-delivery.service.ts
--   Spaces/Guard      verifySession, and guards/space-auth.guard.ts
-- Slack (src/slack/slack.service.ts): lookupUserByEmail and slackDisplayName, which the sign-in of
-- visitors and the invites call.
-- People (src/users, src/auth, src/invites). Members come from Slack, are invited by email, and hold
-- a pair of tokens.
--   People/Users      users.service.ts: setActive, updateRole, provisionInvited, upsertFromSlack,
--                     the lookups and the two updates
--   People/Auth       auth.service.ts (refresh, logout, getCurrentUser, switchWorkspace,
--                     issueTokens), strategies/jwt.strategy.ts, src/common/guards/roles.guard.ts,
--                     src/super-admin/super-admin-access.service.ts
--   People/Invites    invites.service.ts: invite, inviteOne, normalizeEmails, rosterStatus
-- Base holds what they share: lists measured by native numbers, integers, doubles, texts, a stable
-- sort and lists with distinct ids. Tests holds runs on small inputs.
--
-- How the code corresponds to the model. A database is a record that holds a list for each table,
-- in the order of insertion, a generator of ids and a clock that stands still during one call; an
-- operation takes it and returns it. Queries are functions on those lists. Ids that the database
-- generates are numbers, since they are only compared, but texts where a token or a record holds
-- them; texts that the code compares are texts. A time is a number of milliseconds and a day a
-- number of days since the epoch. Prices are whole millionths of a dollar. What a run is charged
-- is computed in doubles, as the code does (Base/Doubles), on numbers that stay below 2 ^ 1024;
-- recorded costs are exact fractions, where the code computes with floating point; a metric is a
-- number of ten-thousandths, or infinity, or not a number. A unique violation or an exception is
-- a value (`none`, or `thrown` with the message), and a transaction that fails returns the
-- database it began with. On the Spaces and the members operations run one after another. The two
-- limits on the number of actions of a rule are taken to be natural numbers; the code checks no
-- sign. Other failures of the database itself are not modelled.
--
-- Taken as parameters: the configured gateway models, the number of active seats, and for the
-- rules a record with the access tokens, the Meta API, the ROAS verifier and the cron parser, and
-- one for the tasks with the run of a prompt, Slack and the cron parser. A prompt's run may leave
-- another table behind, since other requests are served meanwhile. The Meta API answers a change
-- depending on all changes before it, and the changes are logged. For the Spaces and the members
-- they are the numbers of a JSON value with their conversions, the lower case of a text, the ids that
-- are generated, bcrypt, the signing and verification of tokens, and the replies of Slack; an error
-- that a handler throws is a refusal of its kind.
-- The theorems on the ledger suppose that it is sound (Usage/Ledger/Invariant): ids are distinct,
-- allocations are on grants that exist, and no grant is drawn on for more than it holds.
-- Every loop is structural recursion on a list or on a number that bounds it, so nothing runs on
-- fuel that could give out, but for the search for a free address of a Space: it is given one round
-- more than there are Spaces, and for the search for the exponent of a double, which is given more
-- halvings than there are exponents. The chart counts the days from the first to the last.
--
-- Left out: texts of notes, logs and messages (a message of a rule is a data value); the columns
-- that no modelled operation reads; the operations on pages but for their edits; the sign-in of
-- members through Slack's OAuth; HTTP, the posting of messages, the AI providers, and the other
-- modules of the service.
pub mod Base
pub mod Usage
pub mod Billing
pub mod Rules
pub mod Tasks
pub mod Spaces
pub mod Slack
pub mod People
pub mod Tests
