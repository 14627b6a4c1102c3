-- ===== src/Lib.antt =====
-- A model of honeypots, a collection of low-interaction honeypot servers, and proofs about it.
--
-- Every server is a subclass of BaseServer (honeypots/base_server.py): it listens with a library
-- (Twisted, socketserver), hands what arrives to the protocol object that its server_main declares,
-- and writes what it learns with `log`; logins go through `check_login`. The servers share nothing
-- else but the helpers of honeypots/helper.py. A protocol object is modelled by the record of its
-- attributes and one handler per method that the library calls: connectionMade is
-- connection_made, dataReceived is data_received, connectionLost is connection_lost. A handler
-- (Session) takes the state, and returns a value or an exception, the new state, and the trace of its
-- effects: entries logged, bytes sent, the closing of the connection, lines of the error log.
--
-- The files and what they model:
--   Prelude             the libraries' names, lists and tests on the native numbers
--   Python              bytes and texts, UTF-8, dictionaries, log entries, struct, exceptions; Number
--                       (int of a text), Json, Base64 and Query (urlencoded forms)
--   Session             the handlers, and a connection as a sequence of chunks
--   Base                honeypots/base_server.py: log, check_login; Init is __init__ with
--                       set_local_vars of helper.py, Process is run_server, Port is close_port
--   Helper              honeypots/helper.py: check_bytes; Serialize is serialize_object, Filter is
--                       _serialize_message and _parse_record, Emit the handlers of the log, Sqlite
--                       insert_into_data_safe, Loggers setup_logger, Wait wait_for_service, Request
--                       get_headers_and_ip_from_request, Kill kill_servers and clean_all
--   Manager             honeypots/__main__.py: Start has the methods that start servers, Setup
--                       _set_up_honeypots and _stop_servers, Sniffer and Chameleon their modes, Main
--                       main_logic
--   Ldap                honeypots/ldap_server.py: Packet is parse_ldap_packet
--   Telnet              honeypots/telnet_server.py
--   Postgres            honeypots/postgres_server.py: Message has the two reading functions
--   Socks5              honeypots/socks5_server.py: the socket is the sequence of what arrives
--   Dhcp                honeypots/dhcp_server.py: Options is parse_options, Datagram the handlers
--   Vnc                 honeypots/vnc_server.py: Passwords is the table of known passwords
--   Mssql               honeypots/mssql_server.py: Password and Payload are parts of the handlers
--   Mysql               honeypots/mysql_server.py: Packet and Scramble are methods of the server
--   Ipp                 honeypots/ipp_server.py: Tables, Reader, Head, Attributes, Response
--   Memcache            honeypots/memcache_server.py: Stats is get_stats
--   Redis               honeypots/redis_server.py: Command has the parsing functions
--   Ssh                 honeypots/ssh_server.py: Keys is _receive_line, Shell _respond,
--                       Connection handle_connection
--   Pjl                 honeypots/pjl_server.py
--   Oracle              honeypots/oracle_server.py: Descriptor is parse_payload
--   Ntp                 honeypots/ntp_server.py
--   Pop3                honeypots/pop3_server.py
--   Imap                honeypots/imap_server.py
--   Ftp                 honeypots/ftp_server.py
--   Smtp                honeypots/smtp_server.py
--   Irc                 honeypots/irc_server.py
--   Rdp                 honeypots/rdp_server.py: what the client sends is a list of chunks
--   Sniffer             honeypots/sniffer.py: Messages is find_icmp
--   Elastic             honeypots/elastic_server.py: Payloads are the documents of do_GET
--   Http                honeypots/base_http_server.py, for http_server.py and https_server.py
--   HttpProxy           honeypots/http_proxy_server.py
--   Smb                 honeypots/smb_server.py: what becomes of the lines of the library's log
--   Sip, Dns, Snmp      honeypots/sip_server.py, dns_server.py, snmp_server.py: their handlers
-- Tests, a child of the modules with results, applies the theorems to concrete data.
--
-- Bytes and characters are numbers, byte strings and texts lists of them. A lookup, an index, an
-- unpacking or a strict decoding that may raise returns a Result with the exception. The loop of
-- the IPP attributes is on fuel: one more than the bytes behind the index, and every round moves the
-- index forward. The wait for a service is on fuel too: its clock is in tenths of a second, and 51
-- rounds are enough where each takes one at least. The digits that `str` and `hex` write, and the bits
-- of a character beyond eight, are counted on a fuel that is at least the number itself. Recursion
-- elsewhere is on the data.
--
-- Parameters stand for what is not the program's: DES for VNC, SHA-1 for MySQL, inet_aton for DHCP,
-- int of a character for Redis, the random draws of memcache, the time for NTP and SSH, the classes
-- that the POP3, IMAP, FTP, SMTP, IRC, DNS and SIP servers extend, the ports and the service of a
-- process, the clock and the port table of the wait, the reprs and the texts of floats in a log, the
-- folder for temporary files, urlparse, the sockets and processes of a machine, the end of the TLS
-- handshake of RDP, the transport of SSH, the parser of SNMP, the
-- header parser and the resolver of the proxy, whether the database takes a statement, whether the
-- system lets the sniffer send, and for the manager the constructors of the servers, what run_server
-- gives or raises, what a kill gives, how the wait for the end ends, and the interfaces of the machine.
--
-- Not modelled: the listening sockets, threads, certificates, the argument parser and the signals;
-- the endless loop of the statistics; the creation of the table; the test clients; what the libraries
-- do in the servers whose protocol is theirs (DNS, SNMP, SMB, SIP, HTTP).
pub mod Prelude
pub mod Python
pub mod Session
pub mod Helper
pub mod Base
pub mod Ldap
pub mod Telnet
pub mod Postgres
pub mod Socks5
pub mod Dhcp
pub mod Vnc
pub mod Mssql
pub mod Mysql
pub mod Ipp
pub mod Memcache
pub mod Redis
pub mod Ssh
pub mod Pjl
pub mod Oracle
pub mod Ntp
pub mod Pop3
pub mod Imap
pub mod Ftp
pub mod Smtp
pub mod Irc
pub mod Manager
pub mod Rdp
pub mod Sniffer
pub mod Elastic
pub mod Http
pub mod HttpProxy
pub mod Smb
pub mod Sip
pub mod Dns
pub mod Snmp
