-- ===== src/Linmot/Mci/Commands.antt =====
-- linmot/src/mci/commands.rs: the motion commands, their numbers and their parameters.
use puddle.Base.{ℕ}
use puddle.Base.Exec.{pure, ◌>>◌}
use puddle.Linmot.Units.{Position, Velocity, Acceleration, Jerk}
use puddle.Linmot.Writer.{Write, write_i32_le}

-- The fields of a constructor stand in the order of the source.
pub data Command : Type 0 where
  no_operation : Command
  vai_go_to_pos : Position → Velocity → Acceleration → Acceleration → Command
  vai_increment_dem_pos : Position → Velocity → Acceleration → Acceleration → Command
  vai_go_to_pos_from_act_pos_and_act_vel :
      Position → Velocity → Acceleration → Acceleration → Command
  vai_stop : Acceleration → Command
  p_stream_with_drive_generated_time_stamp : Position → Command
  pv_stream_with_drive_generated_time_stamp : Position → Velocity → Command
  p_stream_with_drive_generated_time_stamp_and_configured_period_time : Position → Command
  pv_stream_with_drive_generated_time_stamp_and_configured_period_time :
      Position → Velocity → Command
  pva_stream_with_drive_generated_time_stamp : Position → Velocity → Acceleration → Command
  pva_stream_with_drive_generated_time_stamp_and_configured_period_time :
      Position → Velocity → Acceleration → Command
  pva_stream_with_controller_generated_time_stamp : Position → Velocity → Acceleration → Command
  stop_stream : Command
  vaji_go_to_pos : Position → Velocity → Acceleration → Acceleration → Jerk → Command

unfoldable pub id : Command → ℕ
id no_operation = 0x000
id (vai_go_to_pos _ _ _ _) = 0x010
id (vai_increment_dem_pos _ _ _ _) = 0x011
id (vai_go_to_pos_from_act_pos_and_act_vel _ _ _ _) = 0x013
id (vai_stop _) = 0x017
id (p_stream_with_drive_generated_time_stamp _) = 0x030
id (pv_stream_with_drive_generated_time_stamp _ _) = 0x031
id (p_stream_with_drive_generated_time_stamp_and_configured_period_time _) = 0x032
id (pv_stream_with_drive_generated_time_stamp_and_configured_period_time _ _) = 0x033
id (pva_stream_with_drive_generated_time_stamp _ _ _) = 0x034
id (pva_stream_with_drive_generated_time_stamp_and_configured_period_time _ _ _) = 0x035
id (pva_stream_with_controller_generated_time_stamp _ _ _) = 0x03A
id stop_stream = 0x03F
id (vaji_go_to_pos _ _ _ _ _) = 0x3A0

unfoldable pub write_parameters : Command → Write
write_parameters no_operation = pure tt
write_parameters (vai_go_to_pos position velocity acceleration deceleration) = do
  write_i32_le position
  write_i32_le velocity
  write_i32_le acceleration
  write_i32_le deceleration
  pure tt
write_parameters (vai_increment_dem_pos increment velocity acceleration deceleration) = do
  write_i32_le increment
  write_i32_le velocity
  write_i32_le acceleration
  write_i32_le deceleration
  pure tt
write_parameters
      (vai_go_to_pos_from_act_pos_and_act_vel position velocity acceleration deceleration) =
    do
      write_i32_le position
      write_i32_le velocity
      write_i32_le acceleration
      write_i32_le deceleration
      pure tt
write_parameters (vai_stop deceleration) = do write_i32_le deceleration; pure tt
write_parameters (p_stream_with_drive_generated_time_stamp position) = do
  write_i32_le position
  pure tt
write_parameters (pv_stream_with_drive_generated_time_stamp position velocity) = do
  write_i32_le position
  write_i32_le velocity
  pure tt
write_parameters (p_stream_with_drive_generated_time_stamp_and_configured_period_time position) = do
  write_i32_le position
  pure tt
write_parameters
      (pv_stream_with_drive_generated_time_stamp_and_configured_period_time position velocity) =
    do write_i32_le position; write_i32_le velocity; pure tt
write_parameters (pva_stream_with_drive_generated_time_stamp position velocity acceleration) = do
  write_i32_le position
  write_i32_le velocity
  write_i32_le acceleration
  pure tt
write_parameters
      (pva_stream_with_drive_generated_time_stamp_and_configured_period_time position velocity
        acceleration) =
    do write_i32_le position; write_i32_le velocity; write_i32_le acceleration; pure tt
write_parameters (pva_stream_with_controller_generated_time_stamp position velocity acceleration) =
    do write_i32_le position; write_i32_le velocity; write_i32_le acceleration; pure tt
write_parameters stop_stream = pure tt
write_parameters (vaji_go_to_pos position velocity acceleration deceleration jerk) = do
  write_i32_le position
  write_i32_le velocity
  write_i32_le acceleration
  write_i32_le deceleration
  write_i32_le jerk
  pure tt
