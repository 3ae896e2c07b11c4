-- ===== src/Lib.antt =====
-- A model of the robust mixing prototype: n servers, of which t < n / 4 may be corrupted, hold
-- Shamir shares of the messages of N clients and open them in an order that does not show who sent
-- which one. A client sends to each server shares of an encoding of its message, 7 * L + 5 powers
-- of it. The servers check the encodings in shared form by one random linear combination, expand
-- each of them to the N = 14 * L ^ 2 + 10 * L - 1 first powers, add these up over the clients, open
-- the sums, and find the messages as the roots of the polynomial that has these power sums.
--
-- The parts, and the files that model them (paths from the repository's root):
--   Prelude         shared names, lists indexed by numbers, chains of Option, counted loops.
--   ZzP             the interface of NTL's ZZ_p, with the residues modulo p as an instance.
--   Additive2Basis  additive2basis.h and its copy rm_additive2basis.h: `add2basis_gen`,
--                   `encode_input`, `add2basis_encode`, and in Circuit the two decompressions
--                   (`circuit` has the loops that both share, over the way to put out an element),
--                   in Verify the predicate `verify_format`. The other children are proofs.
--   RmCommon        rm_common.hpp: `rm_info`, `number_of_truths`, `is_all_true`, the table of FFT
--                   primes; `fill_rm_info` is the part of rm_server_main.cpp that derives the
--                   parameters.
--   Message         network_message.hpp, `submit_message` and `send_vector` of rm_client.hpp, and
--                   `prepare_message` of network_server.hpp.
--   SecretSharing   secretsharing.h: sharing and the decoder `rs_decode`. Linear has the laws of
--                   NTL's matrices and linear combinations. Decoding and RoundTrip are proofs.
--   Roots           root_finding.h: `newton_to_polynomial`; in Graeffe the tangent Graeffe transform,
--                   in Search `batch_eval` and `find_roots`, whose random elements are a list. Newton,
--                   Coefficients, Polynomial, Sizes, Powers, Sums, Chirps and Evaluation are proofs.
--   Stm             rm_server_stm.hpp, the machine of a session: State has the fields of
--                   `rm_mixing_stm`, Batch the batched opening, Opening its composition over all
--                   servers, Compute the local computations, Handler `message_handler`, Execute the
--                   loop `execute_rm_stm`. Late has the states that follow a state of a machine, by
--                   messages and rounds of the loop.
--   Queue           network_ts_queue.hpp: `async_queue`.
--   Connection      network_connection.hpp: the handlers of the two ends of a connection, and the
--                   links that they reach. Frames states what the bytes under way stand for, Steps
--                   reads off each event what it changes; Delivery, Received, Busy, Liveness,
--                   Work and Messages are proofs.
--   Server          rm_server_main.cpp: the test cases, `update` of network_server.hpp, and the loop
--                   that hands each message to the machine of its session, in Sessions the map of
--                   these. Served, Independent and Updates are proofs.
--   Client          rm_client_main.cpp: the sharing and the submission of the messages, and the wait
--                   for completion. Shares, Delivery and Waiting are proofs.
--   Config          the start of both mains: the arguments, the three configuration files, and the
--                   sessions of the client program, with its own loops over the test cases.
--                   Agreement, Network, Parameters and Sessions are proofs.
--   Network         network_client.hpp (Client, with the loops of the mains that connect) and
--                   network_server.hpp (Server, the connections that are accepted). Connecting,
--                   Sending and Accepting are proofs.
--
-- How they interact: a vector that the machine sends is an `Output` of the run; `send_vector` makes
-- a message of it, `prepare_message` of the receiver reads it, `message_handler` stores it in the
-- table of its round, and `execute_rm_stm` goes on when the round is complete. Between the two ends
-- the message is an element of the outgoing queue of a `Link`, bytes on its wire, and an element of
-- the incoming queue, from which `update` takes it.
--
-- Conventions: a failed assertion (the program is built with assertions) and an access out of
-- range are `none`. NTL is not part of the repository: its elements, its conversion to bytes, its
-- polynomials and matrices and its inverse are records with the laws that the proofs rely on.
-- Identifiers and counts of a header are kept to their 16 and 32 bits; a server's column is
-- `sender_id - 1` on 32 bits. Within a test case the connections that are up, and the random elements,
-- are those of its context. The loop of the machine and the loop of the decoder run on fuel: six
-- rounds are enough for the first, and the second is started with one more than the length of the
-- polynomial that is divided by, which each division makes shorter.
--
-- What asio does, whether an address resolves, a connection is made, a socket is open or a posted
-- closing runs, is given with each call. A configuration file is the list of its words; `std::stoi` is
-- a parameter. A loop that connects runs over the list of the outcomes of its attempts; one in which
-- `connect` throws leaves the socket open or not.
--
-- Not modelled: the functions of rm_server.hpp, which are not called, the threads as such (a flag says
-- whether the handlers run), output and measurements in the two mains.
pub mod Prelude
pub mod ZzP
pub mod Additive2Basis
pub mod RmCommon
pub mod Message
pub mod SecretSharing
pub mod Roots
pub mod Stm
pub mod Queue
pub mod Connection
pub mod Server
pub mod Client
pub mod Config
pub mod Network
