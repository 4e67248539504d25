-- ===== src/Lib.antt =====
-- ReconSR: a reconnaissance pipeline that runs modules on entities (host names, addresses, system
-- numbers, e-mail addresses) and stores what they find in a graph, within the scope that the user
-- has set.
--
-- The parts and how they interact. The dispatcher picks, for an entity of the store, the functions
-- of the modules that apply to its type and its tags, and runs them. What a module returns goes to
-- the processor, which refuses what breaks the module's contract, normalises every entity with the
-- validator, drops what no chain of results ties to the source, marks what the scope manager puts
-- out of scope, and sends the rest to the repository. The scope manager reads the user's rules from
-- files and reloads them when they change.
--
-- Which file models which part:
--   Libs: the calls that leave the repository (golang.org/x/net/idna and publicsuffix, the Unicode
--     case tables of strings.ToLower and strings.ToUpper), as a record of functions.
--   Strings, Net: what the code uses of Go's packages strings and net, on texts as lists of bytes.
--   Validator: internal/validator/validator.go, one file per function: Types (ValidateTag), Domain
--     (validateDomain, getICANNAnchor), Ip, Asn, Email; Validator itself has Validate. An error is
--     `none`.
--   Scope: internal/scopemanager/scopemanager.go. Scope has IsOutOfScope and IsExplicitlyAllowed,
--     RuleSets the package's variables and processRaw, Parse parseRawFile, Load Load.
--   Schema: schema/schema.go.
--   Dispatcher: internal/dispatcher/dispatcher.go. Tags has containsTag, matchTags and the tag groups
--     of loadMemoryConfig, Config the rest of loadMemoryConfig, GetAllCapabilities and IsActionable,
--     Routing has Dispatch, whose goroutines run in the order of the batch. What a module does when
--     it is called is the record World.
--   Processor: internal/processor/processor.go. Keys is the walk over the sources, Context what
--     Process prepares, Run its main loop, Process its start, its end and the whole function.
--   Pipeline: internal/pipeline/pipeline.go, as a step relation whose steps are the functions of
--     Dispatcher and Processor. What it asks of Store is the record Repository, which Stores fills
--     with the model of Store. The rules and the answers of the modules and of the database may
--     differ from step to step.
--   Repository: internal/repository/repository.go, what Store does in memory. Batch has
--     buildStoreBatch, States the marks of scope and the depths, Layers the loop over the property
--     layers, Logs the rows of the log, Store the whole function with buildBatchItems. What SQL does
--     is the record Database.
--   Modules: modules/vuln_lookup, whose answers come from the network as parameters. Versions has
--     compareVersions, Ranges isVersionInRange and isCveApplicable (cpe.go), Numbers and RangeSpec what
--     they mean, Extract and Cve what cve.go takes from a record, Cpe the pages of a search,
--     VulnLookup Exec. Writing is the list of results with the generator of
--     modules/utils/modutil/localid.go, and Dates and Collector are
--     modules/utils/dateutil/dateutil.go. Subdomains is modules/subdomain_hierarchy.
--   Examples: concrete inputs.
--
-- Fuel. The loop over the parents of a name (domain_walk, allowed_walk) takes one more than the
-- length of the name, since every round makes it shorter. The walk over the sources takes one more
-- than the number of edges, since every edge puts at most one key on the queue. The loop over the
-- pending groups of a packet takes their number, since a round without progress ends it; the loop
-- over the property layers takes the number of properties. A Go map is an
-- association list or a list of its keys, in the order of insertion; Go itself visits a map in an
-- order of its own choosing.
--
-- The steps of Pipeline are atomic: each makes one change of the counter repoWritersWg, and they
-- come in any order.
--
-- Not modelled: the SQL of the repository, the network calls of the modules and all modules but
-- vuln_lookup and subdomain_hierarchy, the decoding of JSON, the terminal dialogue,
-- the report's templates, the channels, the locks and the pauses between calls. The digest of the
-- rules (crypto/sha256 over the sorted rules) and the texts of the errors are parameters.
mod Base
pub mod Libs
pub mod Strings
pub mod Modules
pub mod Net
pub mod Validator
pub mod Scope
pub mod Schema
pub mod Dispatcher
pub mod Processor
pub mod Repository
pub mod Pipeline
pub mod Examples
