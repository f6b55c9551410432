-- ===== src/Lib.antt =====
-- A model of the backend's sign-in, subscriptions, workspaces and files, with theorems on them.
--
-- The program is a NestJS backend for organizations (tenants) and their members, on MongoDB. A person
-- signs in with a password or with a code that is mailed (src/auth/auth.service.ts). If an
-- authenticator is enabled, the password leads to a challenge and not to a session; the challenge is a
-- stored ticket with a budget of attempts (src/auth/mfa/services/mfa-challenge.service.ts), which
-- `verifyMfaChallenge` redeems with the code of an authenticator, a recovery code or the mailed code
-- (src/auth/mfa/services). A session is a signed access token and a stored refresh token, which
-- `refresh` rotates. The user manages the second factor in src/auth/mfa/mfa.service.ts. The guards of
-- src/auth/guards read the access token. What an organization may use follows from its subscription
-- (src/billing/services/subscription-entitlements.service.ts). Its administrators keep workspaces with
-- boards of tasks (src/workspace/workspace.service.ts), and attach files to tasks: a file is uploaded
-- to Cloudinary as a temporary asset, registered within the storage of the subscription, and finalized
-- for a task, which renames it (src/file/file.service.ts); creating and updating a task calls that
-- inside a transaction. Stripe reports on subscriptions by webhooks, which write the documents that the
-- entitlements read (src/billing/services/stripe-webhook.service.ts).
--
-- Files and code:
--   Prelude, Action: shared names; a service method is a function from the database to a result or an
--     exception, and the database after it, so that writes before a throw stay.
--   Text, Text/Token, Text/Laws: JavaScript's text operations; the tokens `jti.secret` of
--     parseChallengeToken and parseOpaqueRefresh.
--   Mongo, Mongo/Memory, Mongo/Laws: the driver as an interface of single-document operations, with
--     its laws, and a driver in memory that satisfies them. Mongo/Sort, Mongo/Insertion: the order of
--     one sorted query, which is free among equals, as an interface and in memory.
--   Crypto and below: src/common/crypto over an interface of Node's primitives.
--   Host, Host/Sample: all that comes from outside the repository, as one record, and a sample of it.
--   Auth/Model: the documents (src/auth/mfa/schemas, src/auth/schemas, src/user/schemas).
--   Auth/Config: numbers read from the environment.
--   Auth/Repositories and below: src/auth/mfa/repositories, src/auth/repositories, and the lookups of
--     users and tenants.
--   Auth/Challenge and below: issue, load, registerFailedAttempt, consume, clearForUser.
--   Auth/Factor and below: MfaVerificationService, TotpService, BackupCodeService, EmailCodeService.
--   Auth/Session and below: issueTokenPair, refresh, logout, getMe.
--   Auth/Login, Auth/CodeLogin, Auth/SecondFactor and below: login, requestLoginCode,
--     verifyMfaChallenge, resetMfaForUser, verifyEmail.
--   Auth/Manage and below: MfaService. Auth/Guards and below: the four guards.
--   Billing and below: SubscriptionEntitlementsService and the tier names of the assistant.
--   Files/Cloud: Cloudinary as an interface. Files/Model, Files/Repository: the documents of
--     `file_assets` and FileAssetRepository. Files/Names, Files/Cleanup, Files/Finalize, Files/Upload
--     and below: FileService, in the order in which its methods call each other.
--   Workspaces/Model, Workspaces/Repository: tasks, workspaces and their repositories, with
--     executeInTransaction. Workspaces/Service: createWorkspace, deleteWorkspace. Workspaces/Tasks:
--     createTask, deleteTask. Workspaces/Update: updateTask. Workspaces/Listing and below: the reads
--     and pages. Workspaces/Attachments: mergeAttachmentUrls.
--     Workspaces/Step and below: every writing request as a step of one relation on the board.
--   Stripe/Model, Stripe/Repository, Stripe/Webhook: StripeWebhookService with the repositories that it
--     writes. Stripe/Laws, Stripe/Outcome: what its deliveries leave.
--   Lists and below: sets of texts, as both services build them with `new Set`.
--   Auth/Sample, Files/Sample, and the files named Tests: a small database and runs on it.
--
-- Conventions. A date is its milliseconds, and the clock is an argument. What a request draws at
-- random (identifiers, secrets, salts, codes) is an argument. No function of the model needs fuel:
-- all recursion is on texts and lists. bcrypt, otplib, the JWT signer and verifier, Node's cipher,
-- the driver, Cloudinary, Stripe and the environment are parameters with their documented laws. Each
-- repository operation is one step on the database; requests run one after the other.
--
-- A transaction is its operation followed by a commit, which does not fail, or an abort, which restores
-- the documents that it wrote. The collection of assets has two views for that, one of the transaction
-- and one of the others; a document that the cleanup deletes meanwhile is gone from both.
--
-- Not modelled: registration, tenants, members, tenant billing and the catalogue's synchronisation, the
-- assistant, notifications and mail delivery, which other services carry; routes, cookies and the
-- validation of input, which the framework does; log lines; requests that interleave.
pub mod Prelude
pub mod Lists
pub mod Text
pub mod Action
pub mod Mongo
pub mod Crypto
pub mod Host
pub mod Auth
pub mod Billing
pub mod Files
pub mod Workspaces
pub mod Stripe
