-- ===== src/Lib.antt =====
-- A verification library for the PortaPhone adapter: the part of the program that decides which site
-- of the telephony switch is asked, who is let in, and what of the switch's data is served.
--
-- The program's parts and their modules (paths are from the repository's root):
--
-- Failover models app/bss/adapters/portaswitch/failover.py. `SiteState` is the tracker of one pod;
-- each method is a function on it, with the clock, the answer of a probe and the presence of an event
-- loop as arguments. A background task is its in-flight flag, and its end is an operation of its own,
-- so that an order of events is a path of `Failover.Invariant.Step`.
--
-- HttpApi models app/bss/async_http_api.py: `send_rest_request` asks the tracker for the targets, goes
-- through them, and reports an unreachable or slow main site back to the tracker. What httpx does
-- with a base URL is an argument. HttpApi.Sync is the blocking twin in app/bss/http_api.py,
-- whose calls may write the table of tokens, as those of FreePbx (app/bss/adapters/freepbx.py) do.
-- HttpApi.Login models how a request comes to its session; `login`
-- and `refresh` of the billing are arguments, since each connector overrides them.
--
-- Sessions models app/bss/sessions.py and the session of app/bss/types.py, Sessions.Management the
-- methods of app/bss/adapters/session_management.py over that storage, and Sessions.Otp the one-time
-- passwords of app/bss/adapters/otp.py, whose right code creates a session. Identifiers that uuid
-- gives are arguments, and the theorems name which of them must differ. Times are microseconds.
--
-- RecordingLink models app/bss/adapters/portaswitch/recording_link.py, and RecordingId the recording
-- ids of app/bss/adapters/portaswitch/serializer.py. Both use Codec, an interface of base64 and UTF-8
-- with their documented laws; HMAC is an argument with the length of its digest. Codec.Sample is an
-- instance for the tests.
--
-- CallStatus and the first part of CallQueues model app/bss/adapters/portaswitch/serializer.py: the
-- status of a call from its xDR, the hunt groups and their counters. Accounts, CallHistory and the
-- rest of CallQueues model parts of app/bss/adapters/portaswitch/adapter.py: the account list with
-- its paging and its cache, the range of a history request, the queue logins and their counters. The
-- answers of the switch are arguments, a page for an offset or a state with an update.
--
-- Base has what the modules share: lists measured by native numbers, texts as lists of characters,
-- the dict of app/bss/dbs/__init__.py in insertion order, and results with Python's exceptions.
--
-- Stored models app/bss/dbs/serializer.py, the packing of model objects into documents; a RootModel is
-- a text with a class name, and a constructor that raises is an absent result. What JSON and
-- dates are as text is a parameter.
--
-- Bounds and fuel. The paging of hunt groups has the twenty pages of the code as its fuel. The offsets
-- of the account pages are enumerated with the reported total as fuel, and every step goes on by the
-- page limit. The eviction loop has the number of entries as fuel, since each turn drops one; that it
-- ends by itself is part of its theorem. Numbers are unbounded as in Python; the header of a link has
-- the widths of its struct format.
--
-- Release models how the release of the switch is read and kept, in the same adapter file.
--
-- Portaswitch models the sign-in of app/bss/adapters/portaswitch/adapter.py and what hangs on it. A
-- method is a function from the state of the adapter and of the switch to its result and the state
-- after it, and a handler of `WebTritErrorException` a function on the fault code. Portaswitch.Account
-- has the switch as an interface, `Api`; a read leaves its state and a call can change it, and both
-- can fail in every way. Portaswitch.Limits has the device limits and their two caches, SignIn the
-- sign-in with a password, Email the search for the account of an address, Otp the one-time passwords
-- with otp_storage.py, Session the tokens of the account realm, Recordings the recordings and public
-- links over RecordingId and RecordingLink, Voicemail the mailbox, and Offices the offices of a
-- company and its CRM address, Numbers the accounts of the numbers of a phonebook, and Calls a page of the history over CallHistory,
-- Release, CallStatus and RecordingId. The search by email has ten reads as its fuel, and every read but the
-- last gives a thousand rows, after which the code refuses. Regular expressions, `strip` and `int`
-- are written out for ASCII texts.
--
-- Not modelled: the web application (app/main.py), the API models and clients, contacts, the
-- user info and the custom pages of the PortaSwitch adapter, the other adapters,
-- metrics and tracing, the configuration and the storage backends. Logging is left out everywhere.
pub mod Base
pub mod Failover
pub mod FreePbx
pub mod Release
pub mod Sessions
pub mod Stored
pub mod HttpApi
pub mod CallHistory
pub mod CallQueues
pub mod CallStatus
pub mod Codec
pub mod Accounts
pub mod Portaswitch
pub mod RecordingId
pub mod RecordingLink
