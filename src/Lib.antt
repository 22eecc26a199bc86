-- ===== src/Lib.antt =====
-- GFLGO is an iOS game whose C code is in its pods: the protocol buffers codec nanopb, in
-- GFLGO/Pods/nanopb (pb_common.c, pb_encode.c and pb_decode.c), and the base64 codec of Firebase's
-- web socket, GFLGO/Pods/FirebaseDatabase/Firebase/Database/third_party/SocketRocket/fbase64.c.
-- This library models both, as the app's build configures them: PB_FIELD_32BIT and
-- PB_ENABLE_MALLOC are set, PB_BUFFER_ONLY, PB_NO_ERRMSG and PB_WITHOUT_64BIT are not; size_t and
-- pointers have 64 bits, and numbers are little-endian.
--
-- Base holds the names that the other modules share: lists measured by native numbers
-- (Base/Lists), Boolean tests (Base/Tests), masks and shifts as divisions and remainders
-- (Base/Bits, Base/Words), and signed integers (Base/Int).
--
-- Nanopb/Outcome: a function of nanopb returns true with its results, or false, and leaves a
-- changed state either way; `fault` is what C leaves undefined, `stuck` a loop whose fuel ran out.
-- Nanopb/Istream is pb_istream_t with pb_read and pb_readbyte, Nanopb/Ostream pb_ostream_t with
-- pb_write. A stream is over memory, or has a user's callback, which is a function that the stream
-- carries. Everything above a stream reaches it through these operations alone.
--
-- Nanopb/Varint is the variable-length integers of pb_decode.c: pb_decode_varint32,
-- pb_decode_varint and pb_skip_varint, against the wire format of Nanopb/Varint/Format, in which a
-- string of bytes stands for a number. Nanopb/Wire is tags, the skipping of fields, and
-- substreams, of pb_decode.c, which stand on the varints. Nanopb/Encode is the pb_encode_
-- functions of pb_encode.c for integers, tags and strings; Nanopb/Encode/Fields the pb_enc_
-- functions, which load a field from memory.
--
-- Nanopb/Memory is the memory that message structures lie in, with its objects; Nanopb/World a
-- stream with it, and allocate_field, where realloc and free are parameters. Nanopb/Decode is the
-- pb_dec_ functions of pb_decode.c, which store a field. Nanopb/Field is pb_field_t and its type
-- byte, of pb.h, Nanopb/Iter the field iterator of pb_common.c, over the list of the entries in
-- front of the terminator, Nanopb/Iter/Structure where a structure's fields lie, Nanopb/Iter/Order
-- in which order the iterator visits them, and Nanopb/Schema what the pointers of descriptors and
-- extensions lead to.
--
-- The message encoder of pb_encode.c: Nanopb/Encode/Default is pb_check_proto3_default_value,
-- Nanopb/Encode/Array encode_array, pb_encode_submessage and the table PB_ENCODERS, and
-- Nanopb/Encode/Message encode_basic_field to pb_encode and the functions on top of it. A user's
-- callback is a function that does not change the memory. Nanopb/Encode/Format is the wire format
-- of a value as a relation, Nanopb/Encode/Spec that of a structure, which Nanopb/Encode/Messages
-- is about; Nanopb/Encode/Writes says what it means that an encoder writes bytes, on a stream that
-- counts and on one over memory alike, Texts is about the bytes of numbers and strings, and
-- Values, Entries, Basic and Refines go from a value to a field.
--
-- The message decoder of pb_decode.c: Nanopb/Decode/Access is the pointers and the loops that the
-- others share, Nanopb/Decode/Defaults pb_message_set_to_defaults, Nanopb/Decode/Release
-- pb_release, Nanopb/Decode/Static and Nanopb/Decode/Pointer decode_static_field and
-- decode_pointer_field, Nanopb/Decode/Extension callback fields, decode_field and extensions,
-- Nanopb/Decode/Progress the local variables of pb_decode_noinit, and Nanopb/Decode/Message
-- pb_decode_noinit to pb_decode_nullterminated. Nanopb/Decode/Steps is the decoding of a text as
-- steps over its records, Records takes a step, Search and Takes are the searches and the field
-- decoders that these steps need, Nanopb/Decode/Messages is about pb_decode_noinit on a whole
-- text, Required about its check for required fields and Required/Seen about the bits behind it,
-- and Nanopb/RoundTrip about both directions. A function that C calls recursively is given to the
-- modules below it as an argument, and Message closes the circle. The count of a fixed array is a
-- local variable that C points iter->pSize at; here it is a value that the decoders return.
--
-- Nanopb/Safe is about what holds on any bytes, those of an attacker included: a rule for each way
-- to build a function from others, for an invariant of the state. Safe/Stream is the functions on
-- streams, where the invariant is that the bytes left are in the buffer, Safe/Varint and Safe/Wire
-- those on varints, tags and substreams; Safe/World adds the memory, Safe/Scalars and
-- Safe/Decoders are the pb_dec_ functions and their table, Safe/Layout says which message
-- structures there may be, Safe/Parts is substreams and the loops over fields, Safe/Counts and
-- Safe/Packed arrays and their counts, Safe/Defaults, Safe/Release, Safe/Union, Safe/Static,
-- Safe/Message, Safe/Tagged and Safe/Loop the functions on fields and messages, and Safe/Decode
-- the functions of the interface. The structures are those of static fields; what a pointer field
-- or an extension leads to depends on the allocator and on the application.
--
-- Base64 is fbase64.c: f_b64_ntop and f_b64_pton, on buffers with their contents; `fault` is an
-- access outside a buffer. isspace is that of the C locale. A byte above 127 stays one, where the
-- signed char of f_b64_pton becomes a negative int: isspace and strchr treat the two alike.
--
-- Loops: the loop of pb_decode_varint has a round for each of the ten bytes that it can take, and
-- that of pb_encode_varint one for each byte of its buffer. The loops of pb_decode_varint32 and
-- pb_skip_varint have a round for each byte left in the stream, each of which takes one. The
-- skipping of pb_read takes 16 off its count in a round and has more rounds than the count. A
-- search of the field iterator has one round more than there are fields. The loops of fbase64.c go
-- along their source. The functions on messages, which call each other for submessages and
-- extensions, take a depth, which has to be more than the nesting of submessages and the length of
-- any list of extensions; at depth 0 they are stuck. Their loops over fields have a round for each
-- field, those over a packed array one more round than entries or bytes, and the loop of
-- pb_decode_noinit one more than the bytes left, since a tag takes at least one.
--
-- Not modelled: pb_encode_negative_varint, which this build leaves out, and the code in other
-- languages: the Swift app, the Objective-C and C++ pods.
pub mod Base
pub mod Base64
pub mod Nanopb
