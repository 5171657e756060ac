-- ===== src/Daemon/Main/Robbed.antt =====
-- From the command line, the program comes to close the socket of a thread that uses it.
use pdrad.Daemon.Program.{Program}
