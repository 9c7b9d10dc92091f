-- ===== src/Lib.antt =====
-- MemoDB and the Bitcode Database: a model of the storage core and the server of MemoDB.
--
-- MemoDB stores structured values under content identifiers. A value is encoded as bytes, the
-- bytes or their hash make a CID, and a CID is written as text in one of eight bases. The files
-- follow that order from the bottom:
--
-- * Multibase models memodb/lib/Multibase.cpp. A BitwiseBase<N> object is the record BitwiseBase;
--   the constructor's table is `values`, decodeWithoutPrefix and encodeWithoutPrefix are
--   `decode_without_prefix` and `encode_without_prefix` with one definition per loop, and
--   Multibase::decode, encode and findByName are `decode`, `encode` and `find_by_name`.
-- * Cid models memodb/lib/CID.cpp and memodb/include/memodb/CID.h. loadFromSequence is
--   `load_from_sequence`, with the ArrayRef that it advances returned beside the result; fromBytes,
--   parse, calculate and asString are `from_bytes`, `parse`, `calculate` and `as_string`. The hash
--   function of libsodium is the parameter Blake2b: 32 bytes that depend on the content alone.
-- * Ieee models the conversions between a double and its bits: encodeFloat of
--   memodb/lib/CBOREncoder.cpp and decode_float of memodb/lib/Node.cpp. A finite double is a sign, a
--   significand of 53 bits and an exponent, as frexp gives them; the payload of a NaN is left out.
-- * Node models memodb/include/memodb/Node.h: `Node` has the alternatives of Node::variant_, and
--   Node/Map has the operations of NodeMap on its sorted vector.
-- * Cbor models memodb/lib/CBOREncoder.cpp on memodb/lib/NodeVisitor.cpp. The fields of CBOREncoder
--   are a record that visit_node and the other visit functions thread through; Cbor/Encoding has
--   the bytes of a node on their own. Cbor/Decode models loadFromCBORSequence and loadFromCBOR of
--   memodb/lib/Node.cpp, with `start`, next_string and next_item as the source has them.
-- * Ipld models saveAsIPLD and loadFromIPLD of memodb/lib/Node.cpp: a node as a block under a CID.
-- * Uri models memodb/lib/URI.cpp: URI::parse, getPathString and encode are `parse`,
--   `get_path_string` and `encode`, with one definition per part of a URI; the lambdas percentEncode
--   and percentDecode are `percent_encode` and `percent_decode`.
-- * Name models the names of memodb/lib/Store.cpp: asURI of Head, Call and Name is `head_uri`,
--   `call_uri` and `as_uri`, and Name::parse is `parse`.
-- * Store is the interface of memodb/include/memodb/Store.h as a record of operations on a state,
--   with the laws that what `set` stores under a head or a call is what `resolve_optional` gives.
-- * Server models memodb/lib/Server.cpp. Server/Calls has CallGroup and PendingCall, with the part
--   that each handler has under a group's mutex as one function; Server/State, Server/Stored,
--   Server/Evaluation and Server/Workers have the handlers, and Server the routing of
--   handleNewRequest. A handler takes a request and the server's state to a response and a state.
--   Server/Requests has the requests and responses of memodb/include/memodb/Request.h.
-- * Http models parts of memodb/lib/HTTP.cpp: parseMethod, hasIfNoneMatch, startResponse, sendETag
--   and its like, and chooseNodeContentType, whose qualities are an argument; and escapeForHTML of
--   memodb/lib/Request.cpp. What is sent is the list of the calls that send it. Http/Accept has
--   getAcceptQuality, whose results make such an argument.
-- * Prelude has the lists, words and tests that the others share; Examples has runs on concrete
--   inputs.
--
-- Bytes, chars and words are natural numbers; a shift of a uint64_t is cut off by % 2 ^ 64. Loops
-- whose end is not visible in their clauses have fuel: eight rounds for a group of chars, since
-- eight chars of N bits are N whole bytes; as many rounds as bits for the bytes of a group; as
-- many as chars or bytes for a text, If-None-Match and Accept among them; nine for a VarInt of 64
-- bits; and two rounds for each byte of CBOR, since a level of nesting takes a byte and so does a
-- member. If-None-Match, Accept and the parameters of a media range have one round more. Where the
-- fuel of a loop of Multibase::decode, of Node::loadFromCBOR or of Http runs out, it gives `stuck`,
-- which is no value of the program; CID::parse takes it for no bytes. The loops that only write,
-- push_chars, push_pads, fill_chunk and encode_loop of Multibase and write_var_int_loop of Cid, give
-- what they have so far.
--
-- LLVM's isLegalUTF8String is the parameter `is_legal_utf8`, a test on byte strings of which nothing
-- is assumed, and so are the time `now` in nanoseconds, the store and what getContentNode gives. The
-- two mutexes of the server are left out: a handler is one step, and the events of a group come in
-- any order. A pointer to a PendingCall is the key of its call. A Link stands for its CID: when a
-- link is fetched from a store is left out.
--
-- Not modelled: the stores on SQLite, RocksDB and HTTP, the bodies of HTTP requests and responses, the
-- evaluator, the JSON form of nodes, and the tools on LLVM bitcode. These stand on libraries outside
-- the repository or on parts that have no model yet.
pub mod Prelude
pub mod Multibase
pub mod Cid
pub mod Ieee
pub mod Node
pub mod Cbor
pub mod Ipld
pub mod Uri
pub mod Name
pub mod Store
pub mod Server
pub mod Http
pub mod Examples
