-- ===== src/CString.antt =====
-- C strings as lists of their bytes, less the terminating NUL, and what the program does with them
-- through the C library: strcmp, atoi, printf's %d, sscanf's %d and inet_pton.
pub mod Text
pub mod Number
pub mod Address
pub mod Memory
