-- ===== src/Lib.antt =====
-- A model of the collaborative text editor in crdt_editor/, and its correctness.
--
-- Each client holds a Document (crdt_editor/src/document.cpp), a tree of elements with ids. A
-- local change becomes an InsertOperation or a RemoveOperation, with an id from the Id_generator
-- (crdt_editor/crdt/id_generator.cpp); it is applied to the client's own document, written as a
-- Message (crdt_editor/network/message.cpp), framed (crdt_editor/network/framing.cpp) and sent to
-- the server (crdt_editor/network/server.cpp), which applies it to its persistent document and
-- routes it to the other clients of the document. Operations may arrive in any order and more
-- than once: what arrives before its parent, or a removal before its target, is buffered. The
-- editor thread and the network thread exchange messages through two ThreadSafeQueues
-- (crdt_editor/util/thread_safe_queue.hpp).
--
-- The files, and the code they model:
--   Ids             crdt_editor/src/elementID.hpp and .cpp: ElementID and its order
--   Operation       crdt_editor/src/operation.hpp, crdt_editor/src/character.hpp and .cpp
--   Text            what the serializers use of std::string: to_string, stoull, split, find
--   Codec           crdt_editor/src/elementID.cpp, crdt_editor/src/operation.cpp: their texts
--   Message         crdt_editor/network/message.hpp and .cpp
--   Framing         crdt_editor/network/framing.hpp and .cpp, and the readers of frames in
--                   crdt_editor/network/client_connection.cpp and network_client.cpp
--   IdGenerator     crdt_editor/crdt/id_generator.hpp and .cpp
--   OperationLog    crdt_editor/src/operation_log.hpp and .cpp
--   Queue           crdt_editor/util/thread_safe_queue.hpp
--   Hash            crdt_editor/util/hash.hpp and .cpp
--   Viewport        crdt_editor/UI/viewport.hpp and .cpp
--   Document        crdt_editor/src/document.hpp and .cpp: the state, apply, applyInsert,
--                   applyDelete; its child modules hold the rest of the class and the proofs:
--     Siblings      the sort of the children
--     Invariant     what holds between two calls, and that each step keeps it
--     History       whole histories
--     Convergence   replicas that received the same operations
--     Visit         visit_visible, render, get_line_column, and what the walk meets
--     Queries       get_element_at, get_anchor_at, get_line_length, get_line_count,
--                   get_max_line_length, clamp_position, get_visible_range, get_cursor_position
--     Walk          successor, predecessor, their visible kin, resolve_cursor_anchor
--     Typing        what one more, newest insertion does to the tree and to the text
--     Validate      validate
--     Positions     places in the text against the list of the visible elements
--     Ranges        what get_visible_range collects
--   Cursor          crdt_editor/editor/cursor.hpp and .cpp
--   Input           crdt_editor/editor/editor_command.hpp and .cpp, input_handler.hpp and .cpp; its
--                   children Moves, Selection and Commands hold the proofs
--   Session         crdt_editor/network/editor_session.hpp and .cpp; its children: Steps, one more
--                   operation; Invariant and Apply, what each operation keeps; Receive and
--                   Messages, what comes from the server; Perform and Keys, what comes from the
--                   keyboard; Agree, sessions with the same operations
--   Widget          crdt_editor/UI/editor_widget.hpp and .cpp: the timers, the wheel and the window's
--                   place; its children: Keys, keyPressEvent; Mouse, the mouse; Shown, that the
--                   window follows the cursor; Paint, where the cursors are drawn. Each key or
--                   click goes through Session and Document. What Qt gives is a Toolkit
--   Storage         crdt_editor/persistance/persistance_log.cpp, persistent_document.cpp and
--                   document_store.cpp, over the statements of sqlite_database.cpp
--   Server          crdt_editor/network/server.hpp and .cpp, client_connection.hpp and .cpp; its
--                   child Receive has routing, opening and receive_message, its child Writing the
--                   handler of a write
--   Client          crdt_editor/network/network_client.hpp and .cpp
--     Writing       its asynchronous writes: the queue, the frames in flight, the handlers in any
--                   order; Flight, Ordered, Handlers, Run and Drain hold the proofs
--   Outcome         exceptions: a call that changes its object leaves the object too
--   Prelude         numbers, lists, and hash tables as association lists behind their laws
--   Examples        runs on concrete values
--
-- How the code is read. A std::string is the list of its bytes, a char its byte. Hash tables are
-- association lists; loops over them go in the order of the list. A visitor that captures
-- variables by reference is a function on those variables. Lamport clocks have 64 bits and wrap;
-- counts of elements, lines and columns are natural numbers, since they count objects in memory.
-- In Document, a history is genuine when every id has one insertion and the root has none, which
-- is what the generators of clients with different ids give.
--
-- Fuel. applyInsert calls itself for the operations that waited for the new element; the fuel is
-- one more than the number of buffered operations, each nested call takes at least one of them
-- out, and the invariant shows that the fuel never runs out. visit_visible gets the number of
-- elements, which bounds the depth of the tree. The loops of successor and predecessor get the
-- number of elements too, and so do the searches of the visible neighbours, which meet each element
-- once; the theorems on them show that this is enough. Numbers are printed with one round for each
-- unit of their value.
--
-- Not modelled: Qt and the pixels of the window (document_to_screen, draw_document and cursor_color
-- of crdt_editor/UI/editor_widget.cpp), the constructors and threads of crdt_editor/app/main.cpp,
-- the sockets of Boost, the calls of SQLite
-- (crdt_editor/persistance/sqlite_database.cpp), the network of the tests
-- (crdt_editor/network/fake_network.cpp), and the printing of diagnostics. SHA256 of OpenSSL is a
-- parameter, and so are the statements of SQLite.
mod Prelude
pub mod Ids
pub mod Outcome
pub mod Text
pub mod Operation
pub mod Codec
pub mod Message
pub mod Framing
pub mod IdGenerator
pub mod Viewport
pub mod Widget
pub mod OperationLog
pub mod Queue
pub mod Hash
pub mod Document
pub mod Cursor
pub mod Input
pub mod Session
pub mod Storage
pub mod Server
pub mod Client
mod Examples
