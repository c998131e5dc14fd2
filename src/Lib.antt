-- ===== src/Lib.antt =====
-- Liminalis: a verification library for the API server, apps/api/src/.
--
-- The server stores encrypted items for its users and lets them out again: to their own devices,
-- to another user by a share, to anybody with a public link or a password, and from device to
-- device in a live transfer, under a policy for each confidentiality level. A handler is modelled
-- as an action on the database that may end in an exception (Common/Exec.antt); what it wrote
-- before an exception stays written, except inside a transaction.
--
--   Common       tests on numbers, handlers with their rules, and tables (the calls of Prisma)
--   Schema       the rows and enumerations of apps/api/prisma/schema.prisma, and the database
--   Policy       policy/policy.service.ts and policy-defaults.ts. Numbers has the conversions of
--                JavaScript, Evaluate the five decisions, Current the bundle in force, Defaults the
--                seeds, Publish their publication and restoration
--   Uploads      uploads/uploads.service.ts. The file itself has the preparation, Parts the parts with
--                the quota, Finalization the source item that a session becomes
--   Live         live-transfer/live-transfer.service.ts. Checks has the private checks, Creation
--                creation and joining, Lifecycle confirmation, transport and the ends, Fallback,
--                Signals and Relay the rest, Records the retained records, Requests the requests
--                of live-transfer.controller.ts as one step, Steps the abstract machine
--   Links        public-links/public-links.service.ts. State has the refresh and the spending of a
--                download, Creation, Downloads and Tickets the handlers, Requests the requests of
--                public-links.controller.ts as one step
--   Retrieval    retrieval/retrieval.service.ts. Attempts has the attempts and package references,
--                Families the choice of a package family, here and in shares.service.ts, Service the
--                handlers of the owner, Download the download of an attempt
--   Extraction   extraction/extraction.service.ts. State has the refresh, Creation, Submission and
--                Completion the handlers, Requests the requests of extraction.controller.ts
--   Shares       shares/shares.service.ts. Creation has the sharing and the recipient's keys,
--                Retrieval the retrieval of a share and its completion
--   SourceItems  source-items/source-items.service.ts
--   Projections  projections/projection.service.ts and getActiveTimeline of projections.service.ts
--   Access       the requests of these services and of public links as one step, and what becomes
--                of an item that has ended
--   ByteValues   common/utils/byte-values.ts
--   RateLimit    common/security/rate-limit.service.ts
--
-- The names are those of the source in the spelling of this library: updateTransport is
-- update_transport. The other modules hold proofs, and Tests concrete data.
--
-- Live transfer and public links read the policy through evaluate_live_transfer_creation and
-- evaluate_public_link_creation; the stored fallback of a live transfer is prepare_upload, which
-- reads it through evaluate_source_creation. Password extraction, shares and the change of a level
-- read the policy as well; retrieval, shares, source items and uploads
-- write the projections. No loop needs fuel: all are over lists.
--
-- Modelled as arguments are the time, one value for a request, the keys, tokens and codes that the
-- database or a random source makes, and `hash` and `verify` of argon2, of which a theorem
-- supposes at most that a password verifies against its own hash. A number of JavaScript is an
-- integer or NaN: fractions and infinities are not modelled, nor is a string as a number beyond
-- decimal integers with an optional sign. Requests run one after another; interleavings between
-- the database calls of two requests are not modelled. Opaque JSON is left out (metadata,
-- snapshots that are only stored) or, for a package reference, a number, and whether a storage key
-- begins with a directory is an argument; an object in the storage is its size and checksum.
--
-- Not modelled: trust, identity, maintenance, the rest of the projections (titles, sizes, counts
-- and times of the rows, the history and the search), the guards and the other helpers of
-- apps/api/src/common/, the clients in apps/web/ and apps/admin/, the wiring of the framework,
-- scripts.
pub mod Common
pub mod Schema
pub mod Policy
pub mod Uploads
pub mod Live
pub mod Links
pub mod RateLimit
pub mod Projections
pub mod SourceItems
pub mod Shares
pub mod Access
pub mod ByteValues
pub mod Retrieval
pub mod Extraction
