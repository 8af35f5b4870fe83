-- ===== src/Fleet.antt =====
-- The fleet as a dashboard sees it: src/common/fleet.py. What docker and the log files say is an
-- argument, and so are the regular expressions and the methods of strings.
pub mod Roster
pub mod Workers
pub mod Read
pub mod Answers
