-- ===== src/Sim/Start/Agree.antt =====
-- The simulator of internal/sim and the controller come to the same decision about a start.
use node_rotation_controller.Policy.{Policy}
use node_rotation_controller.Window.{Schedule}
use node_rotation_controller.Controller.Dispatch
