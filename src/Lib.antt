-- ===== src/Lib.antt =====
-- A model of Sovereign Inference: signed documents, payment for inference, and the gateway that
-- serves it, the discovery of providers and the ways to them.
--
-- A provider runs a gateway in front of a model runtime. A client pays for a request with vouchers
-- (the scheme pic) or with a signed payment (x402). The gateway checks the payment against a table
-- of spent keys, calls the runtime, charges the payment only once it has an answer, credits a
-- ledger, and returns the answer with a signed receipt.
--
-- Base holds the Boolean tests, lists and integers that the other files share; Result the
-- exceptions as values; Json the values of Python's json module, with the lookups of dict. Runtime
-- is what the program calls and does not implement: decimal, datetime, json.dumps, base64, hashlib,
-- Ed25519 and jsonschema are fields of one record, a parameter of every definition, and a theorem
-- that needs more of them takes SigningLaws or TimeLaws.
--
-- canonical_json raises on a document with a float that is not finite or a lone surrogate. That is
-- Runtime.dumps_raises, and signing_bytes, sign_document, verify_document, hash_request and what
-- verifies manifests raise with it, up to the handlers of the gateway, the relay and the directory
-- service, to discovery, to the resolver and to the clients. Protocol.Documents also has what the first
-- three return where they do not raise (covered_bytes, signed_document, is_signed); Protocol.Artifacts,
-- Pic and Proxy are built on these, so they speak of documents that canonical_json takes.
--
-- Protocol models packages/sip-protocol/src/sip_protocol: Protocol.Signing is signing.py,
-- Protocol.Documents is documents.py, Protocol.Artifacts is quotes.py, vouchers.py, receipts.py and
-- hashing.py, Protocol.Manifests is attestation.py and the signing half of manifests.py, and
-- Protocol.ProviderManifest what builds a manifest there.
--
-- Pic models packages/pic-vouchers/src/sip_pic: Pic.SpentSet is spentset.py, Pic.X402 is x402.py,
-- Pic.Payment is payment.py, Pic.Wallet is wallet.py and Pic.Ledger is ledger.py. The table of
-- spent keys is passed from call to call. Pic.Race takes the spending loop of _redeem_pic apart
-- into single statements on the table, for redemptions that run in several threads or processes; a
-- schedule is a list of the redemptions that move. Pic.Race.Solo runs one of them alone with a
-- number of steps, for which twice the length of the batch and two more are enough.
--
-- Pic.Issuer is issuer.py. Pic.Blind is blind.py over SHA-256, gcd, the modular inverse and the
-- printing of integers, which are a parameter (Numerics): Pic.Blind.Integers is int.to_bytes and
-- int.from_bytes, Pic.Blind.Rsa the arithmetic modulo n, Pic.Blind.Key the printed keys, and
-- Pic.Blind.Hash, Pic.Blind.Credit and Pic.Blind.Redeem prove what the protocol promises. The loop of
-- _mgf1 has one round more than the bytes that are asked for as its bound, and each round adds 32.
--
-- Gateway models packages/provider-gateway/src/sip_gateway/app.py: Gateway.RateLimiter is
-- _RateLimiter, Gateway.Requests the checks of a request, Gateway.Pricing the price,
-- Gateway.Manifest the health and the manifest, Gateway.Quote the handler quote, and Gateway.Chat
-- the handler chat_completions over the state that the closures of create_app share.
-- The runtime adapter is a function that answers or fails; the arithmetic of Python's float is a
-- parameter. The clock is read in nanoseconds, and time in microseconds. The handler is one step:
-- what other requests do to the table between its check and its charge is not in Gateway.Chat.
--
-- Router models packages/router/src/sip_router. Of client.py, Router.Client models the parts of a
-- visit to one provider, and Router.Chat the visit (_serve, _try_candidate) and the loop of chat over
-- the candidates. A provider is a pair of functions from requests to responses or a failure of the
-- network; of its manifest only the public key is read. Router.Registry is registry.py, Router.Scoring
-- is scoring.py over the arithmetic of floats, a parameter, and Router.Resolver is resolver.py, which
-- ranks the candidates for chat. Base.Sort is Python's sorted.
--
-- Discovery models packages/discovery/src/sip_discovery/directory.py: announcements in the file
-- directory and discovery in the three directories; what a directory holds, an anchor resolves to or
-- a relay answers is an argument. Text is the order of strings, by which manifests are compared.
-- Discovery.Service is apps/directory-service/src/sip_directory_service/app.py over the file
-- directory.
--
-- Urls models the guards on addresses that apps/relay and apps/openai-proxy share; urlsplit, lower and
-- ip_address are a parameter. Relay models apps/relay/src/sip_relay: the handler of app.py in Relay,
-- and client.py in Relay.Client. Proxy models apps/openai-proxy/src/sip_openai_proxy/sources.py.
--
-- Reputation models packages/reputation/src/sip_reputation: store.py, health.py and rank.py.
--
-- Node models packages/sin-node/src/sin_node: models.py and memory.py in Node and recommend.py in
-- Node.Recommend, over the arithmetic of floats.
--
-- Policy models packages/policy/src/sip_policy/policy.py.
--
-- Every function is total by structural recursion; the numbers are unbounded, as Python's are.
--
-- Not modelled: files, SQLite and the network; the generation of keys and ids, whose draws are
-- arguments; the upload to Arweave and its anchors; of the node the hardware probes, the benchmark, the
-- HTTP client and the API; the compute interface, the plugins, the command lines and the adapters; of the OpenAI proxy the
-- configuration file, the HTTP handlers and the local gateway; demonstrations and front ends.
pub mod Base
pub mod Result
pub mod Json
pub mod Runtime
pub mod Protocol
pub mod Text
pub mod Urls
pub mod Pic
pub mod Reputation
pub mod Node
pub mod Gateway
pub mod Router
pub mod Discovery
pub mod Policy
pub mod Relay
pub mod Proxy
pub mod Tests
