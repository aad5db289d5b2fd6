-- ===== src/Lib.antt =====
-- Pixiecore: the servers that boot a machine over the network.
--
-- A client first asks the ProxyDHCP server (dhcp/dhcp.go), which offers it to the PXE boot server
-- (pxe/pxe.go); that one points it at the TFTP server (tftp/tftp.go), which serves pxelinux. From
-- there on pxelinux asks the HTTP server (http/http.go) for its configuration and for the files of
-- the booter (api/api.go).
--
-- The files:
--   Prelude: numbers, lists, byte strings, results, slices and `copy` of Go.
--   Strconv: `strconv.Atoi`, `strconv.Itoa` and `%d` for a 64-bit int.
--   Tftp/Packet: `nullStr` and `mkError`. Tftp/Request: `parseRRQ`. Tftp/Send: `sendPacket`.
--   Tftp/Transfer: `transfer` and `Blob`. Tftp/Serve: the loop of `Serve`.
--   Dhcp/Packet, Dhcp/Options, Dhcp/Parse, Dhcp/Offer: `DHCPPacket`, `DhcpOption`, `ParseDHCP` and
--   `OfferDHCP`. Dhcp/Interface: `InterfaceIP`. Dhcp/Socket, Dhcp/Serve: the loop of
--   `ServeProxyDHCP`.
--   Pxe/Parse, Pxe/Reply: `ParsePXE` and `ReplyPXE`. Pxe/Serve: the loop of `ServePXE`.
--   Api: `BootSpec` and `Booter`; Api/Plans: what the interface promises.
--   Api/Static: `StaticBooter`.
--   Api/Remote: `RemoteBooter` and `getSpec`; Api/Remote/Links: `signURL`, `getURL` and the rest.
--   Http/Config: `PxelinuxConfig`; Http/Files: `Ldlinux`, `File` and the handlers; Http/Served: the
--   server with either booter; Http/Sharing: the slices of boot specs.
--   Chain, Chain/Reply: from an offer or a reply to the boot.
--   Cli: `pickBooter` of pixiecore/pixiecore.go; Cli/Start: its `main`, which starts the servers.
--   Assets: assets/pxelinux_autogen.go; Assets/Restore: its `RestoreAsset` and `RestoreAssets`;
--   Cli/Start/Embedded: `main` with the embedded files.
--   System: the running process, with what its servers do in any order; System/Sound, /Survival,
--   /Randomness and /Booting, with the steps of /Exchange: what holds of its runs.
--   Logging: log/logging.go. Example: example/main.go.
--   Strings, Base64, Filepath, HardwareAddr: what the program uses of these packages of Go.
--   Tests: runs and instances of the theorems.
--
-- How the code is read. Strings and byte slices are lists of byte values. A function that returns
-- an error gives a `Result`, with one constructor for each error; its third value, `fault`, stands
-- for a run-time panic and for a loop that is out of fuel. A slice bound past the length is a
-- fault, also where Go would read on into the capacity. A nil slice is `none` where the code tests
-- for nil. The texts of error messages that quote an address are a parameter. A socket is a list
-- of events: what each read returns, in order, and the end of the list is a read that has not
-- returned. A read deadline is an event of that list, since nothing else depends on the time.
-- The interfaces of the system, `os.Open`, the HTTP client, the JSON decoder and encoder, secretbox
-- and what `url.Parse` checks behind the scheme are parameters. The source of randomness is the
-- list of bytes that it has left. Boot specs are values, but for Http/Sharing, where the slice that
-- `PxelinuxConfig` writes into lies on a heap. An HTTP request is its path, and what a client of
-- the HTTP server does with a configuration is a reader of its lines.
-- The process is a step relation: the start of a server, a round of a loop, a transfer and an HTTP
-- handler are one step each; a panic ends the process, but for one in an HTTP handler, which
-- net/http recovers from, and what the system and the clients do is left open. What the API server,
-- the web server and the disk hold does not change meanwhile. The calls by which the embedded files
-- are restored to a disk are parameters, with what they leave in its files as laws; which paths
-- name different files is a parameter too. The order in which Go walks a map is a parameter.
-- Writes are collected in order; their errors are ignored, as they are in the code.
--
-- Fuel: the loops over options take one round more than the packet has bytes, and each round takes
-- two bytes; the loop of `transfer` takes one round more than the file has bytes, and each round
-- but the last takes a block. `RestoreAssets` takes two rounds, since the embedded files lie in one
-- directory. A number is written with at most 19 digits, as many as an int has.
--
-- Not modelled: the parsing of the command line, the compressed bytes in assets and gzip, which are
-- parameters, the redirect that net/http makes for a path that is not clean, and the times of log
-- lines.
pub mod Prelude
pub mod Strconv
pub mod Tftp
pub mod Dhcp
pub mod Pxe
pub mod Strings
pub mod Base64
pub mod Filepath
pub mod HardwareAddr
pub mod Api
pub mod Http
pub mod Chain
pub mod Assets
pub mod Cli
pub mod System
pub mod Logging
pub mod Example
pub mod Tests
