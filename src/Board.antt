-- ===== src/Board.antt =====
-- apps/agent_board/board: the Investment Board. Texts are lists of code points.
pub mod Debate
pub mod Chair
mod Tests
