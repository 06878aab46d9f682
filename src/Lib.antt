-- ===== src/Lib.antt =====
-- flowspec-vpp-agent: FlowSpec rules from BGP peers and local detectors become deny entries of two VPP
-- ACLs. This library models the agent's core in antt and proves what makes it correct.
--
-- The parts and how they interact. A BGP session or a local controller produces updates
-- (internal/bgp/event.go). The manager (internal/manager) takes them one at a time on one goroutine,
-- asks internal/translate for the ACL entry that stands for a rule, counts which sessions advertise
-- which entry, and, when the set of entries of a family changes, hands the family's whole list to the
-- backend (internal/vpp), which adds a final permit entry and replaces the Managed ACL of that family.
-- When interfaces are attached, the two Managed ACLs go behind the operator's own.
--
-- Which file models what:
-- - Prelude, Data: shared helpers; Go maps are association lists (Data.Assoc), where a map's keys being
--   distinct is a property (Data.Assoc.Distinct); a set is a map to the unit type.
-- - Flowspec: internal/flowspec/rule.go and normalize.go. Addresses and prefixes of net/netip are
--   written out as a family with a number, and a length.
-- - Semantics: what packets a rule (RFC 8955, RFC 8956) and an ACL entry (internal/vpp/types.go) select.
--   This is the specification that the translation is held against. Components that have no VPP form
--   select by an unknown predicate, a parameter.
-- - Translate: internal/translate, a module for each file: Interval and Range for port.go
--   (`normalize`, `intersectSets`, `unionSets`, `opToSet`, `reduceRange`), Exact for icmp.go and proto.go,
--   TcpFlags for tcpflags.go, Rule for translate.go, Unsupported for unsupported.go.
-- - Vpp: internal/vpp: Types (types.go, backend.go), Acl (acl.go, convert.go), Attach (attach.go).
-- - Manager: internal/manager: State (the tables), Refcount (refcount.go), Backend (the interface of
--   internal/vpp/backend.go, a record of operations and laws), Handlers (manager.go, reconcile.go). The
--   proofs stand below: Invariant, Handlers.Sessions, Handlers.Tables, Handlers.Advertised (the abstract
--   view), Handlers.Refines, Handlers.Desired.
-- - Flowspec.Wire, Flowspec.Parse, Bgp.Encode: GoBGP's types of a route, with what the agent relies on in
--   GoBGP as a record of operations and laws; internal/flowspec/parse.go (`ParseNLRI`, `parseComponents`,
--   `parseAction`); internal/bgp/encode.go (`encodeNLRI`). Flowspec.Actions, Bgp.Components and
--   Bgp.RoundTrip hold the proofs.
-- - Detector.Sample: the sample of internal/detector/types.go that the collectors produce.
-- - Detector.Ring, Detector.Pool: internal/detector/store.go (`sampleRing`; `instance`, `instanceStore`).
--   Detector.Ring.Window and Sums, Detector.Pool.Weakest and Admission hold the proofs.
-- - VppStats: internal/vppstats/store.go (`ringCovers`, `ring`, `interfaceRings`; VppStats.Store has
--   `Store`); Coverage holds the proofs.
-- - Packet: internal/packet/packet.go (`FromEthernet`, `DecodeEthernet`, `DecodeIPv4`, `DecodeIPv6`). The
--   proofs are InBounds, Fields, Vlan and RoundTrip.
-- - Sflow: internal/sflow/decode.go (`Decoder.Decode` and what it calls), with Reader for its `reader`;
--   Format is the datagram as sFlow's specification has it; Framing, Fields, Limits, InBounds and
--   RoundTrip hold the proofs. Psample: `decode` of
--   internal/psample/collector.go.
-- - LocalRules: internal/localrules/controller.go, the leases of the detector's rules and the messages
--   sent for them (`applyEvent`, `expire`, `withdrawAll`, `nextWake`); Expiry, Delivery and Events hold
--   the proofs.
-- - Examples: tests and the theorems on concrete inputs.
--
-- The samples of the collectors go to the attack detector, whose findings the local controller turns into
-- rules; what a decoder reads out of range would panic in Go, and gives a parameter (`oob`, `bad`) here,
-- so that a result which does not depend on it shows that nothing is read there.
--
-- Conventions. Stateful methods take the state and return the new one. Machine integers are natural
-- numbers; wrap-around is written out where the code computes with them (`hi + 1` of a uint64 in
-- `normalize`, the uint8 index and count in attach.go). Errors are values; an `Unsupported` error is kept
-- by its reason, since its text only reaches the log. Every loop is structural recursion on the list it
-- walks or on the count it is given; the VLAN loop of internal/packet has as much fuel as the frame has
-- bytes, and needs four for each round. The lengths of a datagram are taken as 64-bit ints. Sessions and
-- ACL keys are any types with a test for equality, the key of a rule is a parameter, and so are the order of keys and the text of a rule without one. Go visits a set in
-- no fixed order; where the order of visiting the dirty families or a session's keys could matter, the
-- model visits them in the order in which they were entered.
--
-- Times are nanoseconds since the Unix epoch and not before it. Floating-point numbers are any type with
-- the operations in use, or the exact quotient that the code rounds.
--
-- Not modelled: the BGP server and its policies; the compiled rules, sketches and spread estimators of the
-- detector; the poller of VPP counters; configuration; and logging, metrics,
-- sockets, files and the connection to VPP, which are input and output.
pub mod Prelude
pub mod Data
pub mod Flowspec
pub mod Semantics
pub mod Vpp
pub mod Detector
pub mod Packet
pub mod Sflow
pub mod Psample
pub mod Bgp
pub mod VppStats
pub mod Translate
pub mod Manager
pub mod Examples
pub mod LocalRules
