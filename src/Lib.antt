-- ===== src/Lib.antt =====
-- zbus, a Rust implementation of D-Bus: its core as executable definitions, and what they do.
--
-- The repository is a family of crates. zvariant encodes values by their signatures, in the D-Bus
-- and in the GVariant format; zvariant_utils holds the type of signatures; zbus_names holds the
-- types of bus names; zbus connects, authenticates, routes messages and serves objects. A message
-- names its receiver by a bus name, an object path, an interface and a member, and its body by a
-- signature; an address names a socket and a GUID. This library models the checks and the codecs
-- that all of these go through.
--
--   Prelude, Text      what the modules share: lists and tests over native numbers, `Result`, masks
--                      of bits, texts as lists of code points with their UTF-8 bytes.
--   Signature          zvariant_utils/src/signature/mod.rs and fields.rs: the type, `Display`,
--                      `string_len`, the alignments. Signature/Nom states what the parser uses of
--                      the crate nom, as an interface with laws; Nom/Reference is an instance of
--                      it. Signature/Parser has `parse` and `validate`, one definition for each
--                      local parser of the source; its children describe the texts that it
--                      accepts. Signature/Equality has `PartialEq`, `Ord` and the equality with
--                      strings, in which a slice out of range or inside a character is a panic.
--   Address/Percent    zbus/src/address/percent.rs: `encode_percents` and `decode_percents`.
--   Zvariant/Padding   zvariant/src/utils.rs: `padding_for_n_bytes`, with its wrapping operations
--                      and its mask.
--   Zvariant/Depths    zvariant/src/container_depths.rs: the counters of nested containers, which
--                      the serializers and the deserializers of both formats carry.
--   Zvariant/Framing   zvariant/src/framing_offset_size.rs and framing_offsets.rs: the sizes of
--                      the offsets of GVariant containers, writing and reading them. The crate
--                      endi is an interface with laws, and so is the writer.
--   Zvariant/Dbus      zvariant/src/dbus/: ser.rs over zvariant/src/ser.rs: the values of value.rs and,
--                      in Ser, how the D-Bus format writes them, in either order of bytes (endi is
--                      an interface); a sequence in progress is a value, and its length is written
--                      over a 0 at the end. Reference has the bytes that the specification asks for, and
--                      Writing and Refines compare them. Growing, Beginning, Ending and Kept are about
--                      what was written before. De is the deserializer, dbus/de.rs over de.rs, on fuel;
--                      Advancing, Sequences, Nested and Reading follow its position, Progress says
--                      what takes a byte,
--                      and Sizes, Finishing and Total find the fuel that is enough: four units for a
--                      byte, with the size of the signature. RoundTrip reads back what was written:
--                      Ahead and Combine follow known bytes, Aligned is about padding, Readable
--                      says which values are accepted, and Scalars, Arrays, Variants, Elements and
--                      Whole read them.
--   Names              zbus_names/src/*_name.rs: the validators, and `BusName::try_from`.
--   Handshake          zbus/src/connection/handshake/: Command has the commands and their text
--                      (command.rs, auth_mechanism.rs), over an interface to the crate hex;
--                      Common the buffered reading and writing of commands (common.rs), over a
--                      socket, which is an interface in the source as well; Server the server's
--                      state machine (server.rs) and Client the client's side (client.rs), one
--                      definition for each handler; Utf8 is the standard library's check of
--                      the lines.
--                      Server/Protocol is an abstract server without a socket; Authorising,
--                      Transitions and Runs hold each step against its answers; Answers, Handlers,
--                      Rounds and Serving compare the server with it, on a socket that takes what
--                      it is sent.
--   MatchRule          zbus/src/match_rule/: Builder has the calls of the builder (builder.rs) and
--                      Slots its sorted vectors; Printing, Reading and Matching are `Display`,
--                      `TryFrom<&str>` and `matches` of mod.rs. Validity says which rules the
--                      builder makes; Written, Clean, Setting and Parsed take the text apart.
--   ObjectServer       zbus/src/object_server/: the node and its maps, and Tree, with `get_child` and
--                      `get_child_mut`, are node.rs; Calls has `add_arc_interface`, `interface` and
--                      `remove` of mod.rs. A mutable reference is a function of what the caller does
--                      with the node; a signal is a parameter, which may fail. Entries, Paths, Reached,
--                      Elsewhere, Empty and Pruning have the lemmas for Adding and Removing.
--   ObjectPath         zvariant/src/object_path.rs: the validator.
--   Guid               zbus/src/guid.rs: the validator.
--
-- Conventions. The target is a 64-bit Unix, with the feature `gvariant`. Bytes and characters are
-- native numbers. Arithmetic that may wrap in the source is written with `% 2 ^ w`, or the
-- hypotheses keep it in range. A Rust panic is an error of its own where one may occur
-- (`Failure.panic` of Zvariant/Framing), as is a loop without end (`Failure.diverges`). The messages
-- of errors are constructors, without their wording. `Failure.in_array` of Zvariant/Dbus stands for either
-- of two errors: which one depends on how far a failed element got, which the model does not keep.
--
-- Fuel. `parse_signature` recurses on the number of input bytes and one more: each call of itself
-- stands behind a byte that was read. `for_bare_container` makes at most 4 rounds, one for each
-- size. The loop of `from_encoded_array` advances by at least one byte, so the length of the
-- container and one more are enough. The deserializer of D-Bus values has two bounds: one by the
-- bytes that are left, and for a value that was written one by its parts. The loops of the handshake
-- have a budget of socket calls and of rounds, as a peer may go on for ever; where the peer keeps to
-- the protocol, a budget of the chunks, of the replies' bytes and of the commands is enough.
--
-- Not modelled: sockets, executors, locks and tasks; the macros and the code that they generate;
-- conversions and serde implementations around the validated types; the reply to `Hello`;
-- the dispatch of calls to objects, messages, the encoding of values in the GVariant format, and in the
-- D-Bus format `Maybe` and file descriptors.
pub mod Prelude
pub mod Text
pub mod Address
pub mod Signature
pub mod Zvariant
pub mod Names
pub mod ObjectPath
pub mod Guid
pub mod Handshake
pub mod MatchRule
pub mod ObjectServer
