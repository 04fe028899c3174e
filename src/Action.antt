-- ===== src/Action.antt =====
-- internal/action: actions that work on values. The configuration of a step is a dictionary; an action
-- returns its output, or `none` where it returns an error.
pub mod Array
pub mod Loop
pub mod Registry
pub mod Table
