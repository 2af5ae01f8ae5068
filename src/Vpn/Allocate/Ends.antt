-- ===== src/Vpn/Allocate/Ends.antt =====
-- How the search for an address ends: it terminates, and what a failed search means.
