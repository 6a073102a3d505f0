-- ===== src/Cli.antt =====
-- koncli (cli): one module for each command group, the start of the program, and what a command
-- writes. Each command is its `RunE`, from the values of its arguments and flags to the lines that
-- it logs and its error; that cobra parses the command line and checks the number of arguments is
-- left out.
pub mod Output
pub mod Setup
pub mod Semaphore
pub mod Barrier
pub mod Lease
pub mod Gate
pub mod Mutex
pub mod RwMutex
pub mod Once
pub mod WaitGroup
pub mod Status
pub mod Operator
