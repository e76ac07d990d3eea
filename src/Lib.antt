-- ===== src/Lib.antt =====
-- The control plane of EzOpenPN (control/src/ezopenpn) and the installer's backups
-- (installer/backup_archive.py). In the control plane the administrator of one server manages the
-- profiles of VPN clients. A profile has a row in SQLite, a user in Xray (over gRPC) and a secret that
-- Hysteria asks for; the supervisor restarts Xray; a web panel lets the administrator log in.
--
-- The parts, and the files that model them:
--   Prelude, Errors, Encoding: shared lists, tests and texts; the exceptions; the encodings of Python's
--     standard library that the program uses (hexadecimal, base64, base32, UTF-8, percent-encoding).
--   Models: the tables of models.py, a record for each row; `Database` is the database.
--   World, Exec: the outside and the methods. A method of the program is a function from a world
--     (tables, runtime health, history of exchanges) to a result and a world, and what happened before
--     a raise stays. `session_scope` is db.py's: the statements are committed together or not at all.
--     Exec/Keeps is the logic in which the promises of methods are proved.
--   Security/Secrets, Sessions, Throttle, Admin: security/*.py (`SecretCipher`, `SessionService`,
--     `LoginThrottleService`, `AdminService` with `PasswordHasher`), an operation for each method.
--   Integrations/Xray, Hysteria, Supervisor: integrations/*.py, the clients of the runtime.
--   Profiles/Types, Tables, Repository: profiles/types.py and profiles/repository.py. Tables/Query and
--     Tables/Statements hold the SQL as functions of the tables; a method of `ProfileRepository` runs
--     one of them in `session_scope`, and Tables/Transition is the life of a profile. A key column that holds `str(uuid)` holds sixteen bytes here.
--   Profiles/Service, Links, Reconcile, Coordinator: profiles/service.py, links.py, reconcile.py and
--     coordinator.py. `ProfileCoordinator` is modelled as web/app.py `create_runtime_app` builds it.
--   Web/Preauth: web/preauth.py, the one-time challenge of the login form. Web/Browser: the handlers of
--     web/routes/auth.py and subscriptions.py with web/dependencies.py. Web/Hysteria:
--     web/routes/hysteria_auth.py, the question of Hysteria whether a client may connect. Web/Proxy:
--     web/middleware.py, where the address of a client comes from. Web/Preauth/Challenges is the map of
--     one-time challenges that the table stands for. Web/App: the session service that web/app.py
--     `create_runtime_app` makes of the settings, with its `timedelta`s.
--   Config: config.py, the tests of the settings and of the secret files.
--   Installer: installer/backup_archive.py, the archive of a backup and its restoration. Names
--     (`_validated_member_name`), Json (what `json.loads` returns), Manifest (`_parse_manifest`,
--     `_manifest_records`), Metadata (`_database_metadata`, `_load_install_state`), Tar, Staging and
--     Extract (`validate_and_extract`), Restore (`_safe_copy`, `_install_file`, `_copy_tree`) and Apply
--     (`apply_payload`) and Cleanup (`cleanup_staging`), on the disk and the system calls of Io and Disk.
--   Served, Effects, Frames: what the history of calls says of Xray's users. A call that was answered
--     took effect, one that failed may have; so the users are bounded from above and from below.
--   Examples: a concrete outside, runs of the code on it, and applications of the theorems.
--
-- What is a parameter: `Env` in World holds the answers of SQLite (whether a unit of work completes),
-- of Xray, Hysteria and the supervisor, the clocks, the random bytes, the cryptography of PyNaCl, HMAC
-- and Argon2, Unicode's tables, and the texts of dates and addresses. An answer may depend on the
-- whole history. A theorem for every `Env` holds whatever the outside does; one that needs more, such
-- as that the AEAD opens what it seals, says so in its hypotheses.
--
-- The installer has parameters of its own: `Os` in Installer/Io says which system calls are refused
-- (the n-th, for any n), how `read` splits a file, SHA-256, the effective user and the random names;
-- `Formats` in Installer/Extract says what JSON, the tar format and SQLite make of bytes,
-- and `loads_text` there what JSON makes of a text; `read_text` itself, with its newlines, is modelled.
--
-- Conventions: times and durations are microseconds, natural numbers; the settings and `timedelta` have
-- integers. A date past the year 9999, at which Python raises, is a number like any other. The reentrant lock of the
-- coordinator lets one operation run at a time, so operations are taken one after another. UUIDs,
-- salts and server defaults that are drawn inside a unit of work are drawn just before it. A unit of
-- work that SQLite fails raises `operational_error` and changes nothing. The readiness loop of Xray's
-- client runs on fuel, one round for each microsecond of the timeout and one more, which is enough
-- because each pause lasts at least a microsecond; `out_of_fuel` is no exception of the program.
--
-- In the installer, a place is a directory of the installation with a name in it, and a directory that
-- is restored holds its files by their paths, with one set of attributes for all its directories. The
-- staging directory holds nodes by their paths, and its directories are those on the way to a node.
-- The loop that repeats `os.write` is one write, a `rmtree` that is refused leaves the directory, and
-- only one process changes the files. Files below the staging directory are visited in the order in
-- which the model lists them.
--
-- Not modelled: the profile and health routes, templates and response headers, the parsing of the
-- configuration, the command line, backup and restore of the control plane, the creation of an archive
-- and the rest of the installer, QR images, migrations, generated protobuf code, and the Go supervisor.
pub mod Config
pub mod Effects
pub mod Encoding
pub mod Errors
pub mod Examples
pub mod Exec
pub mod Frames
pub mod Installer
pub mod Integrations
pub mod Models
pub mod Prelude
pub mod Profiles
pub mod Security
pub mod Served
pub mod Web
pub mod World
