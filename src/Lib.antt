-- ===== src/Lib.antt =====
-- The Home Assistant integration driver for Unfolded Circle remotes: its core as definitions, with the
-- theorems that it is meant to satisfy.
--
-- The program has three parts that talk by messages. The controller (src/controller) keeps the
-- sessions of the remotes, the operation mode, the setup flow and the connection to Home Assistant.
-- The Home Assistant client (src/client) is one actor for each connection: it translates the commands
-- of the remotes to service calls, and the entities of Home Assistant to those of the remotes. The
-- WebSocket server (src/server) receives the messages of the remotes, and hands them to the controller.
--
-- Which file models which part:
--   Prelude, Prelude/Dict      shared names, lists, texts, and the maps keyed by texts
--   Platform                   the crate url, the floats and the metadata type, as parameters
--   Json, Api                  JSON values, and the message types of the crate uc_api
--   Errors                     src/errors.rs
--   Settings, Settings/Valid   src/configuration.rs: the settings, their accessors and their check
--   Controller/Machine         the operation mode of src/controller/mod.rs, a table of transitions
--   Controller/Messages        what the controller sends
--   Controller/State           the struct Controller with its actor context, and the sessions
--   Controller/Core            the methods of impl Controller in src/controller/mod.rs
--   Controller/Connection      src/controller/handler/ha_connection.rs
--   Controller/Sessions        r2_connection.rs, r2_event.rs and r2_response.rs there
--   Controller/Entities        ha_event.rs there
--   Controller/Requests        r2_request.rs there
--   Controller/Setup, Setup/Input, Controller/Url   setup.rs there
--   Controller/Step            the steps of the controller actor, and the states that it reaches
--   Controller/Step/Newest     steps in which the newest timer fires or the oldest future ends
--   Controller/Frames          what the sending methods leave unchanged
--   Controller/SetupTimer      the invariant of the setup timer, handler by handler
--   Controller/Sessions/Kept, Known, Flow, Events, History   which sessions the controller knows,
--                              handler by handler, and over every run
--   Service                    src/client/service: one file for each conversion, and the call
--   Client/State, Client/Socket   the struct HomeAssistantClient of src/client/mod.rs with its actor
--                              context, and its two sending methods
--   Client/Subscriptions, Client/Text   the methods of src/client/mod.rs: the subscriptions and the
--                              search for the component, and on_text_message
--   Client/Handlers            the messages of the controller: close_handler.rs, get_states.rs,
--                              get_entities.rs, set_remote_id.rs, subscribed_entities.rs
--   Client/Step                streamhandler.rs, actor.rs, the heartbeat, and runs over inputs
--   Client/Ids, Client/Safety, Client/Exchange   theorems: the message ids, the absence of panics, and
--                              what is exchanged with Home Assistant
--   Entity                     src/client/entity, one file for each larger type; Entity/States and
--                              Entity/Events are get_states.rs and event.rs, behind Entity/Interface
--   Settings/Load              src/configuration.rs: all settings, how a start loads them in layers, and
--                              how the setup saves them
--   Errors/Io                  src/errors.rs: the conversions of the errors of other crates
--   Color                      src/util/color.rs, over the operations of f32
--   Program/Start              the function main of src/main.rs
--   Program/Listeners          create_tcp_listeners of src/main.rs
--   Program/Certificates, Program/Network   the files of these names in src/util
--   Program/Metadata, Program/Publish   get_driver_metadata, publish_mdns and src/server/mdns.rs
--   Program/Publish/Zeroconf   src/server/zeroconf.rs, with the thread that it starts
--   Server/Upgrade             ws_index of src/server/ws/mod.rs, up to the new actor
--   Server/Life                the inputs of a connection in a row, up to its end, with the messages
--                              TextMsg that it sends to itself
--   Server, Server/Messages    src/server/ws: the connection of a remote, and its messages, which are
--                              passed on to the handlers of the controller; the clock and whether the
--                              mailbox takes a message are arguments
--   Tests                      a small platform, and each property at a concrete input
-- The other child modules hold the theorems on their parent.
--
-- A handler is a function from the state of the controller to the next one, with its answer where it
-- has one; it is named after the message or the method (setup_driver_msg is Handler<SetupDriverMsg>).
-- The actor context is part of the state: the pending timers with their handles, the messages to
-- itself in order, the futures that run, and what was sent, the newest first. One step of the actor
-- handles one message from outside, fires one timer, takes the first message to itself, or ends one
-- future; timers fire and futures end in any order. What the surroundings answer (whether a mailbox
-- takes a message, the token files, the environment, the error of writing the settings) is a value of
-- World, which each step chooses anew. A panic is the result none. The client is modelled in the same
-- way: its surroundings (the time, whether the sink takes a frame, and whether the controller takes a
-- notice) are a value of Surroundings for each input, and a run is a list of such pairs in any order.
--
-- Bounds: counters of u32 wrap around modulo 2 ^ 32, durations are natural numbers of milliseconds or
-- seconds, numbers that are parsed are limited by their type, and usize has 64 bits. No definition
-- needs fuel: the loops run over lists. A HashMap is an association list in some order, and a HashSet
-- a list, of which the theorems use membership only.
--
-- Not modelled: logging, the labels and translations of the setup pages, mailboxes that are closed
-- while a future waits for them, the handshake of a connection, messages that cannot be printed, the
-- logger and the parser of the command line, the verifier that accepts every certificate, and the
-- fallback of src/server/mod.rs that publishes nothing; src/bin/ha_test.rs is a tool for trying a
-- connection by hand. The decoding of serde, the names that strum derives, the crates config and
-- zeroconf, the certificates as the crates read them, the operations of the floats and the upper case
-- of texts are parameters.
pub mod Prelude
pub mod Platform
pub mod Errors
pub mod Json
pub mod Api
pub mod Settings
pub mod Controller
pub mod Color
pub mod Server
pub mod Program
pub mod Service
pub mod Entity
pub mod Client
pub mod Tests
